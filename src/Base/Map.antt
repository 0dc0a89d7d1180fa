-- ===== src/Base/Map.antt =====
-- Go's maps, as association lists. The order of the entries stands for the iteration order, which
-- Go leaves open: a theorem about a map holds for each order.
use Prim.Native.Nat.{suc}
use mathlib.Core.Path.{◌≡◌, refl}
use mathlib.Core.Bool.{false, ◌||◌}
use mathlib.Core.Option.{Option, none, some}
use mathlib.Core.List.{List, [], ◌∷◌}
use native.Mathlib.Omega.{arith}
use turborg.Base.Tests.{if◌then◌else◌, is_some}
use turborg.Base.Equality.{beq_refl, Comparable, ◌==◌}
use turborg.Base.Lists.{length, contains, Distinct}

abbrev pub Map : Type 0 → Type 0 → Type 0
Map K V = List (K × V)

module _ {K V : Type 0} ⦃e : Comparable K⦄ where
  -- m[k] with `ok`.
  unfoldable pub lookup : K → Map K V → Option V
  lookup k [] = none
  lookup k ((j, v) ∷ es) = if j == k then some v else lookup k es

  -- m[k] = v
  unfoldable pub insert : K → V → Map K V → Map K V
  insert k v [] = (k, v) ∷ []
  insert k v ((j, u) ∷ es) = if j == k then (k, v) ∷ es else (j, u) ∷ insert k v es

  -- delete(m, k)
  unfoldable pub delete : K → Map K V → Map K V
  delete k [] = []
  delete k ((j, v) ∷ es) = let rest = delete k es in if j == k then rest else (j, v) ∷ rest

  unfoldable pub keys : Map K V → List K
  keys [] = []
  keys ((k, v) ∷ es) = k ∷ keys es

  pub lookup-insert :
      (k j : K) (v : V) (es : Map K V)
      → lookup j (insert k v es) ≡ (if k == j then some v else lookup j es)
  unfolding lookup insert
  lookup-insert k j v [] = refl
  lookup-insert k j v ((i, u) ∷ es) =
      ground (arith, e.equal_iff k j, e.equal_iff i k, e.equal_iff i j, lookup-insert k j v es)

  pub lookup-delete :
      (k j : K) (es : Map K V) → lookup j (delete k es) ≡ (if k == j then none else lookup j es)
  unfolding lookup delete
  lookup-delete k j [] = ground arith
  lookup-delete k j ((i, u) ∷ es) =
      ground (arith, e.equal_iff k j, e.equal_iff i k, e.equal_iff i j, lookup-delete k j es)

  pub contains-keys : (k : K) (es : Map K V) → contains k (keys es) ≡ is_some (lookup k es)
  unfolding lookup keys
  contains-keys k [] = refl
  contains-keys k ((j, v) ∷ es) = ground (arith, contains-keys k es)

  pub contains-keys-insert :
      (k j : K) (v : V) (es : Map K V)
      → contains j (keys (insert k v es)) ≡ (k == j || contains j (keys es))
  unfolding insert keys
  contains-keys-insert k j v [] = refl
  contains-keys-insert k j v ((i, u) ∷ es) =
      ground
        (arith, e.equal_iff k j, e.equal_iff i k, e.equal_iff i j, contains-keys-insert k j v es)

  pub contains-keys-delete :
      (k j : K) (es : Map K V)
      → contains j (keys (delete k es)) ≡ (if k == j then false else contains j (keys es))
  unfolding delete keys
  contains-keys-delete k j [] = ground arith
  contains-keys-delete k j ((i, u) ∷ es) =
      ground (arith, e.equal_iff k j, e.equal_iff i k, e.equal_iff i j, contains-keys-delete k j es)

  -- No key stands twice.
  abbrev pub IsMap : Map K V → Type 0
  IsMap es = Distinct (keys es)

  pub insert-IsMap : (k : K) (v : V) (es : Map K V) → IsMap es → IsMap (insert k v es)
  unfolding insert keys
  insert-IsMap k v [] h = (refl, tt)
  insert-IsMap k v ((i, u) ∷ es) h = ground (
    arith,
    e.equal_iff i k,
    e.equal_iff k i,
    contains-keys-insert k i v es,
    insert-IsMap k v es h.1,
  )

  pub delete-IsMap : (k : K) (es : Map K V) → IsMap es → IsMap (delete k es)
  unfolding delete keys
  delete-IsMap k [] h = tt
  delete-IsMap k ((i, u) ∷ es) h =
      ground (arith, e.equal_iff k i, contains-keys-delete k i es, delete-IsMap k es h.1)

  pub delete-absent : (k : K) (es : Map K V) → lookup k es ≡ none → delete k es ≡ es
  unfolding delete lookup
  delete-absent k [] h = refl
  delete-absent k ((i, u) ∷ es) h = ground (arith, delete-absent k es)

  pub length-insert :
      (k : K) (v : V) (es : Map K V)
      → length (insert k v es) ≡ (if is_some (lookup k es) then length es else suc (length es))
  unfolding insert lookup
  length-insert k v [] = refl
  length-insert k v ((i, u) ∷ es) = ground (arith, length-insert k v es)

  pub length-delete :
      (k : K) (es : Map K V) (v : V)
      → IsMap es
      → lookup k es ≡ some v
      → suc (length (delete k es)) ≡ length es
  unfolding delete lookup keys
  length-delete k [] v d h = ground arith
  length-delete k ((i, u) ∷ es) v d h = ground (
    arith,
    e.equal_iff i k,
    length-delete k es v d.1,
    delete-absent k es,
    contains-keys k es,
    d.0,
  )

  pub insert-insert : (k : K) (v u : V) (es : Map K V) → insert k u (insert k v es) ≡ insert k u es
  unfolding insert
  insert-insert k v u [] = ground (arith, beq_refl k)
  insert-insert k v u ((i, x) ∷ es) = ground (arith, beq_refl k, insert-insert k v u es)

  pub delete-insert_absent :
      (k : K) (v : V) (es : Map K V) → lookup k es ≡ none → delete k (insert k v es) ≡ es
  unfolding delete insert lookup
  delete-insert_absent k v [] h = ground (arith, beq_refl k)
  delete-insert_absent k v ((i, u) ∷ es) h = ground (arith, delete-insert_absent k v es)

  -- A write of what is there already.
  pub insert-same : (k : K) (v : V) (es : Map K V) → lookup k es ≡ some v → insert k v es ≡ es
  unfolding insert lookup
  insert-same k v [] h = ground arith
  insert-same k v ((i, u) ∷ es) h = ground (arith, e.equal_iff i k, insert-same k v es)
