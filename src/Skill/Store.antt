-- ===== src/Skill/Store.antt =====
-- internal/skill/store.go: MemoryStore, the values and counters of skills. The clock is an argument.
pub mod Counting
pub mod Keys
mod Examples
use turborg.Base.{
  Bool, false, ltb, not, or_zero, ◌*◌, List, Option, Str, [], none, some, zero, ◌++◌, ◌+◌, ◌∷◌,
  if◌then◌else◌, length, suc, ℕ, str_eq, keep,
}
use turborg.Base.Int.{ℤ, negsuc, pos}
use turborg.Base.Map.{Map, delete, insert, lookup}
use turborg.Base.Time.{Time, in_window}

-- `none` is the zero time, which means no expiry.
pub record MemValue : Type 0 where
  pub val : Str
  pub expires_at : Option Time

pub record MemoryStore : Type 0 where
  pub values : Map Str MemValue
  pub counts : Map Str (List Time)

unfoldable pub new_memory_store : MemoryStore
new_memory_store = record { values = []; counts = [] }

unfoldable pub store_key : Str → Str → Str
store_key skill key = skill ++ 0 ∷ key

abbrev pub is_expired : Time → Option Time → Bool
is_expired now none = false
is_expired now (some t) = not (ltb now t)

-- What a value that is read gives; an expired one is removed.
abbrev pub read_value : Time → Str → MemoryStore → Option MemValue → Option Str × MemoryStore
read_value now k m none = (none, m)
read_value now k m (some v) =
    if is_expired now v.expires_at
    then (none, record m { values = delete k m.values })
    else (some v.val, m)

unfoldable pub get : Time → Str → Str → MemoryStore → Option Str × MemoryStore
unfolding store_key
get now skill key m = let k = store_key skill key in read_value now k m (lookup k m.values)

abbrev pub expiry : Time → ℤ → Option Time
expiry now (pos (suc ttl)) = some (now + suc ttl)
expiry now _ = none

unfoldable pub set : Time → Str → Str → Str → ℤ → MemoryStore → MemoryStore
unfolding store_key
set now skill key val ttl m = record m {
  values =
      insert (store_key skill key) (record { val = val; expires_at = expiry now ttl }) m.values;
}

unfoldable pub remove : Str → Str → MemoryStore → MemoryStore
unfolding store_key
remove skill key m = record m { values = delete (store_key skill key) m.values }

-- time.Minute
abbrev pub minute : ℕ
minute = 60 * 1000000000

abbrev pub window_of : ℤ → ℕ
window_of (pos (suc window)) = suc window
window_of _ = minute

unfoldable pub hits : Str → MemoryStore → List Time
hits k m = or_zero (lookup k m.counts) []

-- The number of hits, and the store.
unfoldable pub incr : Time → Str → Str → ℤ → MemoryStore → ℕ × MemoryStore
unfolding store_key hits
incr now skill key window m =
    let k = store_key skill key in
    let pruned = keep (in_window (window_of window) now) (hits k m) ++ now ∷ [] in
    (length pruned, record m { counts = insert k pruned m.counts })
