-- ===== src/Controller/Addresses.antt =====
-- The decoding of an address: an offset, the index of a set and a tag, for a controller whose line
-- size and number of sets are powers of two, which `get_num_bits` asks for.
use computer_architect.Common.{
  ℕ, zero, suc, ◌+◌, ◌-◌, ◌*◌, ◌/◌, ◌%◌, ◌^◌, ◌<◌, bit_and, ◌≡◌, ◌↔◌, refl, ap, subst, ◌∙◌, arith,
  all_ones, u32, u64, int_to_u64, false, All-replicate, length-replicate,
}
use computer_architect.Common.Assoc.{find_or, lookup}
use computer_architect.Common.Bits.{pow_mono}
use computer_architect.Common.Masks.{pow_pos, bit_and-low, bit_and-high, mod-div, parts_iff}
use computer_architect.Profile.{new_profile}
use computer_architect.Coherence.{new_dir_msi, line_at}
use computer_architect.Coherence.Valid.{new_line-LineValid}
use computer_architect.Cache.{new_cache, new_cache_set, new_cache_line}
use computer_architect.Cache.Sets.{Below}
use computer_architect.Controller.{
  Controller, halvings, get_num_bits, new_controller, get_set_index, get_tag,
}
use computer_architect.Controller.Caches.{SetValid, CacheValid, CtlValid}
use native.Mathlib.Nat.{pow-suc, mod-lt}

halvings_zero : (fuel j : ℕ) → halvings fuel 0 j ≡ j
unfolding halvings
halvings_zero zero j = refl
halvings_zero (suc fuel) j = refl

-- The loop counts the digits of a power of two, where the fuel is more than them.
halvings_lem : (fuel k j : ℕ) → k < fuel → j + suc k < 2 ^ 32 → halvings fuel (2 ^ k) j ≡ j + suc k
unfolding halvings
halvings_lem zero k j h b = absurd (omega arith)
halvings_lem (suc fuel) zero j h b = ground (arith, halvings_zero fuel (u32 (j + 1)))
halvings_lem (suc fuel) (suc k) j h b =
    let half : 2 ^ suc k / 2 ≡ 2 ^ k = omega (arith, pow-suc 2 k) in
    let next : u32 (j + 1) ≡ j + 1 = omega arith in
    rw (half, next)
      (ground (arith, pow_pos (suc k), halvings_lem fuel k (j + 1) (omega arith) (omega arith)))

-- For k < 64 the loop of `get_num_bits` ends on 2^k and the result is k.
pub get_num_bits_lem : (k : ℕ) → k < 64 → get_num_bits (2 ^ k) ≡ k
unfolding get_num_bits
get_num_bits_lem k h = let e = halvings_lem 64 k 0 h (omega arith) in rw e (omega arith)

high_mask : (w : ℕ) → w < 64 → u64 (all_ones * 2 ^ w) ≡ 2 ^ 64 - 2 ^ w
high_mask w h = omega (arith, pow_pos w, pow_mono w 64 (omega arith))

-- A controller for lines of 2^o bytes, and caches of 2^s sets.
abbrev pub power_controller : ℕ → ℕ → ℕ → ℕ → Controller
power_controller n s o ways = new_controller n (2 ^ s) (2 ^ o) ways

module _ (n s o ways : ℕ) (le_s : s < 32) (le_o : o < 32) where
  pub offset_num_bits_lem : (power_controller n s o ways).offset_num_bits ≡ o
  unfolding new_controller
  offset_num_bits_lem = get_num_bits_lem o (omega arith)

  pub tag_mask_lem : (power_controller n s o ways).tag_mask ≡ 2 ^ 64 - 2 ^ (o + s)
  unfolding new_controller
  tag_mask_lem =
      let e : u32 (get_num_bits (2 ^ o) + get_num_bits (2 ^ s)) ≡ o + s =
        rw (get_num_bits_lem o (omega arith), get_num_bits_lem s (omega arith)) (omega arith) in
      ap (λ w. u64 (all_ones * 2 ^ w)) e ∙ high_mask (o + s) (omega arith)

  -- The set of an address is given by the `s` bits above the offset.
  pub get_set_index_lem :
      (addr : ℕ) → get_set_index (power_controller n s o ways) addr ≡ addr / 2 ^ o % 2 ^ s
  unfolding get_set_index
  get_set_index_lem addr =
      let low : all_ones - (2 ^ 64 - 2 ^ (o + s)) ≡ 2 ^ (o + s) - 1 =
        omega (arith, pow_pos (o + s), pow_mono (o + s) 64 (omega arith)) in
      rw (tag_mask_lem, offset_num_bits_lem, low, bit_and-low (o + s) addr) (mod-div o s addr)

  -- The tag of an address is the address without its offset and set bits.
  pub get_tag_lem :
      (addr : ℕ)
      → addr < 2 ^ 64
      → get_tag (power_controller n s o ways) addr ≡ addr - addr % 2 ^ (o + s)
  unfolding get_tag
  get_tag_lem addr h =
      let e : o + s + (64 - (o + s)) ≡ 64 = omega arith in
      let high : addr < 2 ^ (o + s + (64 - (o + s))) = rw e h in
      rw tag_mask_lem (
        subst (λ z. bit_and addr (2 ^ z - 2 ^ (o + s)) ≡ addr - addr % 2 ^ (o + s)) e
          (bit_and-high (o + s) (64 - (o + s)) addr high))

  -- In a controller for 2^s sets and lines of 2^o bytes, with s and o below 32, two 64-bit
  -- addresses have the same set and the same tag exactly when they lie in the same line of 2^o
  -- bytes.
  pub same_line_iff :
      (a b : ℕ)
      → a < 2 ^ 64
      → b < 2 ^ 64
      → ((get_set_index (power_controller n s o ways) a
            ≡ get_set_index (power_controller n s o ways) b)
          × (get_tag (power_controller n s o ways) a ≡ get_tag (power_controller n s o ways) b))
        ↔ (a / 2 ^ o ≡ b / 2 ^ o)
  same_line_iff a b ha hb =
      rw (get_set_index_lem a, get_set_index_lem b, get_tag_lem a ha, get_tag_lem b hb)
        (parts_iff o s a b)

  new_cache-CacheValid : 0 < ways → CacheValid 0 (2 ^ s) (new_cache ways (2 ^ s))
  unfolding new_cache new_cache_set
  new_cache-CacheValid h = record {
    size = length-replicate (2 ^ s) (new_cache_set ways);
    sets = All-replicate (SetValid 0) (2 ^ s) (new_cache_set ways) (record {
      has_line = rw (length-replicate (int_to_u64 ways) new_cache_line) (ground arith);
      low = All-replicate (Below 0) (int_to_u64 ways) new_cache_line (omega arith);
    });
  }

  -- A new controller is valid, with all counters 0.
  pub new_controller-CtlValid : 0 < ways → CtlValid false n (2 ^ s) 0 (power_controller n s o ways)
  unfolding line_at find_or lookup
  new_controller-CtlValid h = record {
    directory =
        unfold new_controller new_dir_msi new_profile in
        (record {
          processors = refl;
          mode = refl;
          profile_size = length-replicate n _;
          lines = λ a. new_line-LineValid false n;
        });
    size = unfold new_controller in length-replicate n (new_cache ways (2 ^ s));
    caches =
        unfold new_controller in
        All-replicate (CacheValid 0 (2 ^ s)) n (new_cache ways (2 ^ s)) (new_cache-CacheValid h);
    indexed = λ addr.
        rw (get_set_index_lem addr)
          (omega (arith, mod-lt (addr / 2 ^ o) (pow_pos s), pow_mono s 31 (omega arith)));
  }
