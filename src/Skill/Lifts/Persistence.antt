-- ===== src/Skill/Lifts/Persistence.antt =====
-- Timed effects and restarts.
use turborg.Base.{
  All, All-append, All-keep, Bool, List-cases, ap, inl, inr, keep_others, false, not, refl, true,
  ◌/◌, ◌≡◌, List, Option, Str, [], some, ◌++◌, ◌∷◌, if◌then◌else◌, ℕ, str_eq, keep,
}
use turborg.Base.Int.{pos}
use turborg.Base.Time.{Time}
use turborg.Skill.Lifts.{
  settle, Lifting, call_of, ensure_lifts_loaded, hydrate, is_due, lift_key, lift_ns, persist_lifts,
  schedule_lift, second, seconds, take_lifts, take_due, unix_after, Store, Codec, PendingLift,
  ModeCall,
}

-- What happens to the lifts of an engine: one is scheduled, a sweep takes out the due ones, it
-- issues the next of them, or a restart loses all but the store, the ones taken out included.
pub data Happening : Type 0 where
  scheduled : Time → Str → Str → Str → ℕ → Happening
  taken : Time → Happening
  issued : Happening
  restarted : Happening

abbrev pub lift_at : Time → Str → Str → Str → ℕ → PendingLift
lift_at now channel modes arg secs = record {
  channel = channel;
  modes = modes;
  arg = arg;
  due = unix_after now (seconds secs);
}

-- The reference: a list of lifts that no restart touches, and those that are taken out of it but
-- not issued yet.
unfoldable pub reference : List Happening → List PendingLift → List PendingLift → List ModeCall
unfolding call_of
reference [] ls flying = []
reference (scheduled now channel modes arg secs ∷ hs) ls flying =
    reference hs (ls ++ lift_at now channel modes arg secs ∷ []) flying
reference (taken now ∷ hs) ls flying =
    reference hs (keep (λ l. not (is_due (now / second) l)) ls)
      (flying ++ keep (is_due (now / second)) ls)
reference (issued ∷ hs) ls [] = reference hs ls []
reference (issued ∷ hs) ls (l ∷ flying) = call_of l ∷ reference hs ls flying
reference (restarted ∷ hs) ls flying = reference hs ls []

module _ {S : Type 0} (st : Store S) (c : Codec) where
  abbrev pub restart : Lifting S → Lifting S
  restart m = record { lifts = []; loaded = false; store = m.store }

  -- The calls on the actor, in order; `flying` are the lifts that sweeps have taken out.
  unfoldable pub run : List Happening → Lifting S → List PendingLift → List ModeCall
  unfolding take_lifts schedule_lift call_of
  run [] m flying = []
  run (scheduled now channel modes arg secs ∷ hs) m flying =
      run hs (schedule_lift st c now channel modes arg secs m) flying
  run (taken now ∷ hs) m flying =
      let (due, after) = take_lifts st c now m in run hs after (flying ++ due)
  run (issued ∷ hs) m [] = run hs m []
  run (issued ∷ hs) m (l ∷ flying) = call_of l ∷ run hs m flying
  run (restarted ∷ hs) m flying = run hs (restart m) []

  -- A value without expiry is read back: so it is with the store over HTTP while no request of it
  -- fails, and with the one in memory while its process lives.
  abbrev pub IsReliable : Type 0
  IsReliable =
      (now later : Time) (skill key val : Str) (s : S)
      → st.get later skill key (st.set now skill key val (pos 0) s)
        ≡ (some val, st.set now skill key val (pos 0) s)

  abbrev pub IsValid : PendingLift → Type 0
  IsValid l = (c.is_utf8 l.channel ≡ true) × (c.is_utf8 l.modes ≡ true) × (c.is_utf8 l.arg ≡ true)

  -- The strings of what is scheduled are valid UTF-8.
  abbrev pub IsText : Happening → Type 0
  IsText (scheduled now channel modes arg secs) = IsValid (lift_at now channel modes arg secs)
  IsText _ = Unit

  -- What is saved is read back as these lifts, and reading changes nothing.
  abbrev pub Holds : S → List PendingLift → Type 0
  Holds s ls =
      (now : Time)
      → (o : Option Str) × (st.get now lift_ns lift_key s ≡ (o, s)) × (hydrate st c o [] ≡ ls)

  abbrev pub Represents : Lifting S → List PendingLift → Type 0
  Represents m ls = (m.lifts ≡ (if m.loaded then ls else [])) × Holds m.store ls

  set-Holds :
      IsReliable
      → (now : Time) (ls : List PendingLift) (s : S) → All IsValid ls
      → Holds (st.set now lift_ns lift_key (c.encode ls) (pos 0) s) ls
  unfolding hydrate
  set-Holds reliable now ls s valid later = (
    some (c.encode ls),
    reliable now later lift_ns lift_key (c.encode ls) s,
    rw (c.encode_full ls, c.decode-encode ls valid) refl,
  )

  persist-Represents :
      IsReliable
      → (now : Time) (ls : List PendingLift) (m : Lifting S) → All IsValid ls
      → m.loaded ≡ true
      → m.lifts ≡ ls
      → Represents (persist_lifts st c now m) ls
  unfolding persist_lifts
  persist-Represents reliable now ls m valid h e =
      (rw (h, e) refl, rw e (set-Holds reliable now ls m.store valid))

  loaded_parts :
      (now : Time) (ls held : List PendingLift) (b : Bool) (s : S)
      → held ≡ (if b then ls else [])
      → Holds s ls
      → ensure_lifts_loaded st c now (record { lifts = held; loaded = b; store = s })
        ≡ record { lifts = ls; loaded = true; store = s }
  unfolding ensure_lifts_loaded
  loaded_parts now ls held true s e h = rw e refl
  loaded_parts now ls held false s e h = let (o, got, same) = h now in rw (e, got, same) refl

  loaded :
      (now : Time) (ls : List PendingLift) (m : Lifting S)
      → Represents m ls
      → ensure_lifts_loaded st c now m ≡ record { lifts = ls; loaded = true; store = m.store }
  loaded now ls m (e, h) = loaded_parts now ls m.lifts m.loaded m.store e h

  schedule-Represents :
      IsReliable
      → (now : Time) (channel modes arg : Str) (secs : ℕ) (ls : List PendingLift) (m : Lifting S)
      → All IsValid (ls ++ lift_at now channel modes arg secs ∷ [])
      → Represents m ls
      → Represents
          (schedule_lift st c now channel modes arg secs m)
          (ls ++ lift_at now channel modes arg secs ∷ [])
  unfolding schedule_lift
  schedule-Represents reliable now channel modes arg secs ls m valid r = rw (loaded now ls m r) (
      persist-Represents reliable now (ls ++ lift_at now channel modes arg secs ∷ [])
        (record {
          lifts = ls ++ lift_at now channel modes arg secs ∷ [];
          loaded = true;
          store = m.store;
        })
        valid refl refl)

  settle-Represents :
      IsReliable
      → (now : Time) (ls : List PendingLift) (p : PendingLift → Bool) (m : Lifting S)
      → All IsValid ls
      → m.loaded ≡ true
      → m.lifts ≡ ls
      → Holds m.store ls
      → let kept = keep (λ l. not (p l)) ls in
        Represents (settle st c now m (keep p ls) (record m { lifts = kept })) kept
  settle-Represents reliable now ls p m valid h e held = elim (List-cases (keep p ls)) [
    | inl none_due ↦ rw (none_due, keep_others p ls none_due) (rw (h, e) refl, held)
    | inr (l, due, some_due) ↦ rw some_due (
        persist-Represents reliable now (keep (λ l. not (p l)) ls)
          (record m { lifts = keep (λ l. not (p l)) ls })
          (All-keep IsValid (λ l. not (p l)) ls valid) h refl)
  ]

  take-Represents :
      IsReliable
      → (now : Time) (ls : List PendingLift) (s : S) → All IsValid ls
      → Holds s ls
      → let (due, after) = take_due st c now (record { lifts = ls; loaded = true; store = s }) in
        (due ≡ keep (is_due (now / second)) ls)
        × Represents after (keep (λ l. not (is_due (now / second) l)) ls)
  unfolding take_due
  take-Represents reliable now ls s valid h =
      let m : Lifting S = record { lifts = ls; loaded = true; store = s } in
      (refl, settle-Represents reliable now ls (λ l. is_due (now / second) l) m valid refl refl h)

  -- From an engine that represents some lifts, with a reliable store and valid UTF-8 throughout:
  -- whatever is scheduled, swept and issued, and wherever the engine is restarted with nothing but
  -- its store, the calls on the actor are those that one list gives that no restart touches. Only
  -- what a sweep has taken out and not issued yet is lost by a restart.
  pub run_refines :
      (hs : List Happening) (ls flying : List PendingLift) (m : Lifting S)
      → IsReliable
      → All IsText hs
      → All IsValid ls
      → Represents m ls
      → run hs m flying ≡ reference hs ls flying
  unfolding run reference take_lifts
  run_refines [] ls flying m reliable text valid r = refl
  run_refines (scheduled now channel modes arg secs ∷ hs) ls flying m reliable text valid r =
      let more =
        All-append IsValid ls (lift_at now channel modes arg secs ∷ []) valid (text.0, tt) in
      run_refines hs _ flying _ reliable text.1 more
        (schedule-Represents reliable now channel modes arg secs ls m more r)
  run_refines (taken now ∷ hs) ls flying m reliable text valid r =
      let (due, kept) = take-Represents reliable now ls m.store valid r.1 in
      rw (loaded now ls m r, due)
        (run_refines hs (keep (λ l. not (is_due (now / second) l)) ls)
          (flying ++ keep (is_due (now / second)) ls) _ reliable text.1
          (All-keep IsValid (λ l. not (is_due (now / second) l)) ls valid) kept)
  run_refines (issued ∷ hs) ls [] m reliable text valid r =
      run_refines hs ls [] m reliable text.1 valid r
  run_refines (issued ∷ hs) ls (l ∷ flying) m reliable text valid r =
      ap (λ (calls : List ModeCall). call_of l ∷ calls)
        (run_refines hs ls flying m reliable text.1 valid r)
  run_refines (restarted ∷ hs) ls flying m reliable text valid (e, h) =
      run_refines hs ls [] (restart m) reliable text.1 valid (refl, h)
