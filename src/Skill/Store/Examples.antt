-- ===== src/Skill/Store/Examples.antt =====
-- Runs of the store of the skills, at concrete inputs.
use turborg.Base.Map.{lookup}
use turborg.Base.{str_beq, arith, refl, ◌≡◌, Str, [], none, ◌++◌, ◌∷◌, str_eq, nat_eq, str_ne}
use turborg.Base.Text.{codes}
use turborg.Base.Int.{pos}
use turborg.Skill.Store.{hits, incr, new_memory_store, get, set, remove, store_key}
use turborg.Skill.Store.Keys.{get-set, get-set_isolated}
use turborg.Skill.Store.Counting.{incr_exact, incr_all}

abbrev flood : Str
flood = codes "flood"

abbrev greet : Str
greet = codes "greet"

abbrev mara : Str
mara = codes "mara"

-- Two hits, of which one is still in the window of ten.
incr_exact_example :
    (incr 20 flood mara (pos 10) (incr_all (3 ∷ 12 ∷ []) flood mara (pos 10) new_memory_store)).0
    ≡ 2
unfolding hits new_memory_store lookup
incr_exact_example =
    incr_exact 20 (3 ∷ 12 ∷ []) flood mara (pos 10) new_memory_store
      (omega arith, (omega arith, tt))

get-set_example :
    (get 12 greet mara (set 5 greet mara (codes "hi") (pos 7) new_memory_store)).0 ≡ none
get-set_example = get-set 5 12 greet mara (codes "hi") (pos 7) new_memory_store

get-set_isolated_example :
    ((get 12 flood mara (set 5 greet mara (codes "hi") (pos 7) new_memory_store)).0
      ≡ (get 12 flood mara new_memory_store).0)
    × ((get 12 flood mara (remove greet mara new_memory_store)).0
        ≡ (get 12 flood mara new_memory_store).0)
unfolding str_beq
get-set_isolated_example =
    get-set_isolated 5 12 greet flood mara mara (codes "hi") (pos 7) new_memory_store refl refl
      (str_ne greet flood refl)

-- A NUL byte in the name of a skill: the keys of two skills collide.
collision :
    store_key (codes "a" ++ 0 ∷ codes "b") (codes "c")
    ≡ store_key (codes "a") (codes "b" ++ 0 ∷ codes "c")
unfolding store_key
collision = refl
