-- ===== src/Rank/Refresh.antt =====
-- How a refresh fills the cache of internal/gameplay/rank/cache.go, and what getRank answers next.
use greatestworks.Base.{
  List, Option, ap, arith, get_elem?, get_elem?-set, get_elem?_lem, if◌then◌else◌, leb, length,
  length-set, ltb, refl, returns, set, some, suc, sym, zero, ℕ, ◌&&◌, ◌+◌, ◌-◌, ◌<◌, ◌^◌, ◌∙◌, ◌≡◌,
  ◌≤◌,
}
use greatestworks.Base.Int.{pos, wrap_int, wrap_int-sub, ◌-ℤ◌}
use greatestworks.Rank.{Cache, Kv, copy, set_cache_data}

-- The size is the number of slots, as newCacheRank makes it, and no index overflows.
pub record IsCache (c : Cache) : Type 0 where
  pub slots : c.size ≡ pos (length c.rank_data)
  pub bound : length c.rank_data < 2 ^ 62

-- Slot `j` of the data after a copy of `rounds` entries, from entry `k` on, to index `idx`.
abbrev pub copied : ℕ → List Kv → ℕ → ℕ → List Kv → ℕ → Option Kv
copied rounds new k idx old j =
    if leb idx j && ltb j (idx + rounds) then get_elem? new (k + (j - idx)) else get_elem? old j

-- The copy runs to its end, keeps the number of slots, and its slots are those of `copied`.
abbrev pub Copies : ℕ → List Kv → ℕ → ℕ → List Kv → Type 0
Copies rounds new k idx old =
    (out : List Kv) × (copy rounds new k idx old ≡ returns out)
    × (length out ≡ length old)
    × ((j : ℕ) → get_elem? out j ≡ copied rounds new k idx old j)

copy_step :
    (rounds : ℕ) (new : List Kv) (k idx : ℕ) (old : List Kv) (kv slot : Kv)
    → get_elem? new k ≡ some kv
    → get_elem? old idx ≡ some slot
    → idx < length old
    → Copies rounds new (suc k) (suc idx) (set old idx kv)
    → Copies (suc rounds) new k idx old
unfolding copy
copy_step rounds new k idx old kv slot e f h (out, run, len, at) = (
  out,
  ground arith,
  len ∙ length-set old idx kv,
  λ j.
      let shift : suc idx ≤ j → suc k + (j - suc idx) ≡ k + (j - idx) = λ p. omega (arith, p) in
      let here : j ≡ idx → k + (j - idx) ≡ k = λ p. omega (arith, p) in
      ground (
        arith,
        at j,
        get_elem?-set old idx j kv h,
        shift,
        here,
        ap (get_elem? new) (shift _),
        ap (get_elem? new) (here _),
      ),
)

pub copy_lem :
    (rounds : ℕ) (new : List Kv) (k idx : ℕ) (old : List Kv)
    → k + rounds ≤ length new
    → idx + rounds ≤ length old
    → Copies rounds new k idx old
unfolding copy
copy_lem zero new k idx old h i = (old, refl, refl, λ j. ground arith)
copy_lem (suc rounds) new k idx old h i =
    let (kv, e, m) = get_elem?_lem new k (omega (arith, h)) in
    let (slot, f, n) = get_elem?_lem old idx (omega (arith, i)) in
    copy_step rounds new k idx old kv slot e f (omega (arith, i)) (
      copy_lem rounds new (suc k) (suc idx) (set old idx kv) (omega (arith, h))
        (omega (arith, i, length-set old idx kv)))

-- What setCacheData does to a range that starts at `s` and is as long as the data.
pub record Stores (s : ℕ) (new : List Kv) (c c' : Cache) : Type 0 where
  pub run : set_cache_data (pos s) (pos (s + length new)) new c ≡ returns c'
  pub well : IsCache c'
  pub same : length c'.rank_data ≡ length c.rank_data
  pub at : (j : ℕ) → get_elem? c'.rank_data j ≡ copied (length new) new 0 s c.rank_data j

pub set_cache_data_fits :
    (s : ℕ) (new : List Kv) (c : Cache)
    → IsCache c
    → 0 < length new
    → s + length new ≤ length c.rank_data
    → (c' : Cache) × Stores s new c c'
unfolding set_cache_data
set_cache_data_fits s new c w h k =
    let (out, run, len, at) = copy_lem (length new) new 0 s c.rank_data (omega arith) k in
    let d : wrap_int (pos (s + length new) -ℤ pos s) ≡ pos (length new) =
      wrap_int-sub (s + length new) s (omega arith) (omega (arith, w.bound, k))
      ∙ ap pos (omega arith) in
    (
      record c { rank_data = out },
      record {
        run = rw (d, w.slots) (ground (arith, run));
        well = record { slots = w.slots ∙ ap pos (sym len); bound = omega (arith, w.bound, len) };
        same = len;
        at = at;
      },
    )

pub set_cache_data_over :
    (s : ℕ) (new : List Kv) (c : Cache)
    → IsCache c
    → length c.rank_data < s + length new
    → set_cache_data (pos s) (pos (s + length new)) new c ≡ returns c
unfolding set_cache_data
set_cache_data_over s new c w h = rw w.slots (ground arith)
