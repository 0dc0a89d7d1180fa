-- ===== src/Skill/Store/Keys.antt =====
-- The values of two skills stay apart.
use turborg.Base.{
  Bool-cases, ap, beq_refl, inl, inr, sym, ◌∙◌, Bool, arith, false, ltb, ne→beq, refl, str_beq,
  true, ◌≡◌, ◌≢◌, Option, Str, [], none, some, zero, ◌+◌, ◌∷◌, if◌then◌else◌, suc, str_eq, contains,
  nat_eq,
}
use turborg.Base.Int.{ℤ, negsuc, pos}
use turborg.Base.Map.{delete, insert, lookup, lookup-insert, lookup-delete}
use turborg.Base.Time.{Time}
use turborg.Skill.Store.{
  MemValue, is_expired, MemoryStore, get, set, remove, store_key, read_value, expiry,
}

-- A name without a NUL byte can be read back from a key.
store_key-injective :
    (skill other key word : Str)
    → contains 0 skill ≡ false
    → contains 0 other ≡ false
    → store_key skill key ≡ store_key other word
    → (skill ≡ other) × (key ≡ word)
unfolding store_key
store_key-injective [] [] key word h k e = ground arith
store_key-injective [] (d ∷ other) key word h k e = ground arith
store_key-injective (c ∷ skill) [] key word h k e = ground arith
store_key-injective (c ∷ skill) (d ∷ other) key word h k e =
    ground (arith, store_key-injective skill other key word)

-- What a stored value gives at a time.
abbrev reads : Time → Option MemValue → Option Str
reads now none = none
reads now (some v) = if is_expired now v.expires_at then none else some v.val

read_value-reads :
    (now : Time) (k : Str) (m : MemoryStore) (o : Option MemValue)
    → (read_value now k m o).0 ≡ reads now o
read_value-reads now k m none = refl
read_value-reads now k m (some v) = elim (Bool-cases (is_expired now v.expires_at)) [
  | inl e ↦ rw e refl
  | inr e ↦ rw e refl
]

get-reads :
    (now : Time) (skill key : Str) (m : MemoryStore)
    → (get now skill key m).0 ≡ reads now (lookup (store_key skill key) m.values)
unfolding get
get-reads now skill key m =
    read_value-reads now (store_key skill key) m (lookup (store_key skill key) m.values)

abbrev pub lives : Time → Time → ℤ → Bool
lives now later (pos (suc ttl)) = ltb later (now + suc ttl)
lives now later _ = true

reads-lives :
    (now later : Time) (val : Str) (ttl : ℤ)
    → reads later (some (record { val = val; expires_at = expiry now ttl }))
      ≡ (if lives now later ttl then some val else none)
reads-lives now later val (pos zero) = refl
reads-lives now later val (pos (suc ttl)) = ground arith
reads-lives now later val (negsuc ttl) = refl

-- A value that was set is read back until its time to live is over, and for ever where that is not
-- positive.
pub get-set :
    (now later : Time) (skill key val : Str) (ttl : ℤ) (m : MemoryStore)
    → (get later skill key (set now skill key val ttl m)).0
      ≡ (if lives now later ttl then some val else none)
unfolding set
get-set now later skill key val ttl m =
    let k = store_key skill key in
    let v : MemValue = record { val = val; expires_at = expiry now ttl } in
    let found : lookup k (insert k v m.values) ≡ some v =
      rw (lookup-insert k k v m.values, beq_refl k) refl in
    get-reads later skill key (set now skill key val ttl m)
    ∙ ap (reads later) found
    ∙ reads-lives now later val ttl

-- What one skill sets or deletes, another does not read, if no name of a skill has a NUL byte.
pub get-set_isolated :
    (now later : Time) (skill other key word val : Str) (ttl : ℤ) (m : MemoryStore)
    → contains 0 skill ≡ false
    → contains 0 other ≡ false
    → skill ≢ other
    → ((get later other word (set now skill key val ttl m)).0 ≡ (get later other word m).0)
      × ((get later other word (remove skill key m)).0 ≡ (get later other word m).0)
unfolding set remove
get-set_isolated now later skill other key word val ttl m h k differ =
    let a = store_key skill key in
    let b = store_key other word in
    let apart : str_beq a b ≡ false =
      ne→beq a b (λ e. differ (store_key-injective skill other key word h k e).0) in
    let v : MemValue = record { val = val; expires_at = expiry now ttl } in
    let kept : lookup b (insert a v m.values) ≡ lookup b m.values =
      rw (lookup-insert a b v m.values, apart) refl in
    let left : lookup b (delete a m.values) ≡ lookup b m.values =
      rw (lookup-delete a b m.values, apart) refl in
    let same = sym (get-reads later other word m) in
    (
      get-reads later other word (set now skill key val ttl m) ∙ ap (reads later) kept ∙ same,
      get-reads later other word (remove skill key m) ∙ ap (reads later) left ∙ same,
    )
