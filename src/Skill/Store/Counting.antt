-- ===== src/Skill/Store/Counting.antt =====
-- The sliding window of a counter counts what an unpruned log would give.
use turborg.Base.{
  keep-append, sym, ap, arith, beq_refl, length-append, refl, ◌∙◌, ◌≡◌, ◌≤◌, List, Str, [], ◌++◌,
  ◌∷◌, length, suc, str_eq, keep, All,
}
use mathlib.Core.List.{append-nil, append_assoc}
use turborg.Base.Int.{ℤ}
use turborg.Base.Map.{lookup-insert}
use turborg.Base.Time.{Time, in_window, keep-in_window_twice}
use turborg.Skill.Store.{MemoryStore, incr, hits, store_key, window_of}

-- Hits at some times, one after the other.
unfoldable pub incr_all : List Time → Str → Str → ℤ → MemoryStore → MemoryStore
unfolding incr
incr_all [] skill key window m = m
incr_all (t ∷ ts) skill key window m = incr_all ts skill key window (incr t skill key window m).1

hits-incr :
    (now : Time) (skill key : Str) (window : ℤ) (m : MemoryStore)
    → let k = store_key skill key in
      hits k (incr now skill key window m).1
      ≡ keep (in_window (window_of window) now) (hits k m) ++ now ∷ []
unfolding hits incr
hits-incr now skill key window m =
    let k = store_key skill key in
    let kept = keep (in_window (window_of window) now) (hits k m) ++ now ∷ [] in
    rw (lookup-insert k k kept m.counts, beq_refl k) refl

keep-hits :
    (now : Time) (ts : List Time) (skill key : Str) (window : ℤ) (m : MemoryStore)
    → All (λ t. t ≤ now) ts
    → let k = store_key skill key in
      let p = in_window (window_of window) now in
      keep p (hits k (incr_all ts skill key window m)) ≡ keep p (hits k m ++ ts)
unfolding incr_all
keep-hits now [] skill key window m h =
    ap (keep (in_window (window_of window) now)) (sym (append-nil (hits (store_key skill key) m)))
keep-hits now (t ∷ ts) skill key window m (le, h) =
    let k = store_key skill key in
    let w = window_of window in
    let p = in_window w now in
    let b = hits k m in
    let after = (incr t skill key window m).1 in
    keep-hits now ts skill key window after h
    ∙ ap (λ b. keep p (b ++ ts)) (hits-incr t skill key window m)
    ∙ ap (keep p) (append_assoc (keep (in_window w t) b) (t ∷ []) ts)
    ∙ keep-append p (keep (in_window w t) b) (t ∷ ts)
    ∙ ap (λ xs. xs ++ keep p (t ∷ ts)) (keep-in_window_twice w t now b le)
    ∙ sym (keep-append p b (t ∷ ts))

-- A hit is counted together with exactly the earlier ones of its skill and key that are in the
-- window, whatever was pruned before.
pub incr_exact :
    (now : Time) (ts : List Time) (skill key : Str) (window : ℤ) (m : MemoryStore)
    → All (λ t. t ≤ now) ts
    → (incr now skill key window (incr_all ts skill key window m)).0
      ≡ suc (length (keep (in_window (window_of window) now) (hits (store_key skill key) m ++ ts)))
unfolding incr
incr_exact now ts skill key window m h =
    ap (λ xs. length (xs ++ now ∷ [])) (keep-hits now ts skill key window m h)
    ∙ length-append (keep (in_window (window_of window) now) (hits (store_key skill key) m ++ ts))
        (now ∷ [])
    ∙ omega arith
