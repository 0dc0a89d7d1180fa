-- ===== src/Skill/Lifts/Examples.antt =====
-- Runs of timed effects at concrete inputs.
use turborg.Base.{
  ap, arith, beq_refl, false, leb, refl, true, ◌*◌, ◌/◌, ◌≡◌, List, Str, [], none, some, ◌+◌, ◌∷◌,
  str_eq,
}
use turborg.Base.Int.{pos}
use turborg.Base.Time.{Time}
use turborg.Base.Text.{codes}
use turborg.Base.Map.{lookup, insert, lookup-insert}
use turborg.Skill.Store.{MemoryStore, new_memory_store, read_value, get, set, store_key, MemValue}
use turborg.Skill.Lifts.{Lifting, hydrate, is_due, second, seconds, unix_after, Store}
use turborg.Skill.Lifts.PlainCodec.{plain_codec}
use turborg.Skill.Lifts.Persistence.{
  lift_at, Happening, scheduled, taken, issued, restarted, run, reference, run_refines,
}
use turborg.Skill.Lifts.Deadlines.{due_exact}

-- A server that keeps what it is set, which outlives the engine; its values are kept as those of
-- the store in memory.
memory_get-set :
    (now later : Time) (skill key val : Str) (s : MemoryStore)
    → get later skill key (set now skill key val (pos 0) s)
      ≡ (some val, set now skill key val (pos 0) s)
unfolding get set
memory_get-set now later skill key val s =
    let k = store_key skill key in
    let v : MemValue = record { val = val; expires_at = none } in
    let found : lookup k (insert k v s.values) ≡ some v =
      rw (lookup-insert k k v s.values, beq_refl k) refl in
    ap (read_value later k (set now skill key val (pos 0) s)) found

abbrev memory : Store MemoryStore
memory = record { get = get; set = set }

abbrev fresh : Lifting MemoryStore
fresh = record { lifts = []; loaded = false; store = new_memory_store }

abbrev chan : Str
chan = codes "#go"

-- A mute for a minute, a restart, and sweeps before and after the deadline.
abbrev muted : List Happening
muted =
    scheduled 0 chan (codes "-q") (codes "mara") 60
    ∷ taken (59 * 1000000000)
    ∷ restarted
    ∷ taken (61 * 1000000000)
    ∷ issued
    ∷ taken (62 * 1000000000)
    ∷ issued
    ∷ []

run_refines_example : run memory plain_codec muted fresh [] ≡ reference muted [] []
unfolding get lookup hydrate new_memory_store
run_refines_example =
    run_refines memory plain_codec muted [] [] fresh memory_get-set
      ((refl, refl, refl), (tt, (tt, (tt, (tt, (tt, (tt, tt))))))) tt
      (refl, λ now. (none, refl, refl))

lifted_once :
    reference muted [] []
    ≡ record { channel = chan; modes = codes "-q"; args = codes "mara" ∷ [] } ∷ []
unfolding reference unix_after seconds
lifted_once = refl

due_exact_example :
    is_due (61000000000 / second) (lift_at 1500000000 chan (codes "-q") [] 60)
    ≡ leb (1500000000 / second + 60) (61000000000 / second)
due_exact_example = due_exact 1500000000 61000000000 chan (codes "-q") [] 60 (omega arith)

-- A duration of 2 ^ 34 seconds overflows: its lift was due before it was scheduled.
overflow : is_due 100 (lift_at (100 * second) chan (codes "-q") [] 17179869184) ≡ true
unfolding unix_after seconds
overflow = refl

-- A restart between the two halves of a sweep loses the lift.
lost :
    reference
      (scheduled 0 chan (codes "-q") [] 60 ∷ taken (61 * 1000000000) ∷ restarted ∷ issued ∷ [])
      []
      []
    ≡ []
unfolding reference unix_after seconds
lost = refl
