-- ===== src/Coherence/Lines.antt =====
-- The directory as a map from addresses to lines: what a write through a reference changes.
use computer_architect.Common.{ℕ, ◌==◌, if◌then◌else◌, ◌≡◌, refl, ◌∙◌, arith}
use computer_architect.Common.Assoc.{find_or, lookup-insert, find_or-insert}
use computer_architect.Profile.{Profile}
use computer_architect.Directory.{DirectoryLine, new_line}
use computer_architect.Coherence.{DirMsi, line_at, put_line, get_directory_line}

pub line_at-put_line :
    (c : DirMsi) (a b : ℕ) (d : DirectoryLine)
    → line_at (put_line c a d) b ≡ (if a == b then d else line_at c b)
unfolding line_at put_line
line_at-put_line c a b d = find_or-insert new_line a b d c.directory

pub line_at-get_directory_line :
    (c : DirMsi) (a b : ℕ) → line_at (get_directory_line c a) b ≡ line_at c b
unfolding line_at get_directory_line put_line find_or
line_at-get_directory_line c a b = ground (arith, lookup-insert a b new_line c.directory)

-- `c'` is `c` with the line of `addr` replaced by `d`, and with the profile `p`.
pub record Writes (c : DirMsi) (addr : ℕ) (d : DirectoryLine) (p : Profile) (c' : DirMsi)
    : Type 0 where
  pub lines : (b : ℕ) → line_at c' b ≡ (if addr == b then d else line_at c b)
  pub same_processors : c'.num_processors ≡ c.num_processors
  pub same_detector : c'.detector ≡ c.detector
  pub profiled : c'.profiles ≡ p

pub get_directory_line-Writes :
    (c : DirMsi) (a : ℕ) → Writes c a (line_at c a) c.profiles (get_directory_line c a)
get_directory_line-Writes c a = record {
  lines = λ b. ground (arith, line_at-get_directory_line c a b);
  same_processors = unfold get_directory_line put_line in ground arith;
  same_detector = unfold get_directory_line put_line in ground arith;
  profiled = unfold get_directory_line put_line in ground arith;
}

pub put_line-Writes :
    (c : DirMsi) (a : ℕ) {d : DirectoryLine} {p : Profile} {c' : DirMsi} (d' : DirectoryLine)
    → Writes c a d p c'
    → Writes c a d' p (put_line c' a d')
put_line-Writes c a {d} {p} {c'} d' w = record {
  lines = λ b. ground (arith, line_at-put_line c' a b d', w.lines b);
  same_processors = unfold put_line in w.same_processors;
  same_detector = unfold put_line in w.same_detector;
  profiled = unfold put_line in w.profiled;
}

pub Writes-self : (c : DirMsi) (a : ℕ) → Writes c a (line_at c a) c.profiles c
Writes-self c a = record {
  lines = λ b. ground arith;
  same_processors = refl;
  same_detector = refl;
  profiled = refl;
}

-- What the line of `addr` is after a write.
pub line_at-Writes :
    (c : DirMsi) (addr : ℕ) {d : DirectoryLine} {p : Profile} {c' : DirMsi}
    → Writes c addr d p c'
    → line_at c' addr ≡ d
line_at-Writes c addr w = ground (arith, w.lines addr)

pub profile-Writes :
    (c : DirMsi) (a : ℕ) {d : DirectoryLine} {p : Profile} {c' : DirMsi} (p' : Profile)
    → Writes c a d p c'
    → Writes c a d p' (record c' { profiles = p' })
profile-Writes c a {c' = c'} p' w = record {
  lines = λ b. unfold line_at in w.lines b;
  same_processors = w.same_processors;
  same_detector = w.same_detector;
  profiled = refl;
}

-- Two writes to one address are the last.
pub Writes-trans :
    (c c' c'' : DirMsi) (a : ℕ) (d d' : DirectoryLine) (p p' : Profile)
    → Writes c a d p c'
    → Writes c' a d' p' c''
    → Writes c a d' p' c''
Writes-trans c c' c'' a d d' p p' w v = record {
  lines = λ b. ground (arith, w.lines b, v.lines b);
  same_processors = v.same_processors ∙ w.same_processors;
  same_detector = v.same_detector ∙ w.same_detector;
  profiled = v.profiled;
}
