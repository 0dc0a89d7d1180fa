-- ===== src/Skill/Lifts.antt =====
-- internal/skill/engine.go: timed effects. A mode that was set for some seconds is reversed by a
-- sweep at or after its deadline, which takes them out of the list under its lock and issues them
-- when it has released it; the pending reversals are saved in the store of the skills.
-- Store is the interface of that name, over a type of states. The encoding of the pending lifts,
-- which encoding/json does, is a parameter. The clock is an argument.
pub mod Persistence
pub mod Deadlines
mod PlainCodec
mod Examples
use turborg.Base.{
  All, Bool, false, ltb, map, not, or_zero, true, ◌%◌, ◌*◌, ◌-◌, ◌/◌, ◌^◌, ◌≡◌, List, Option, Str,
  [], none, some, zero, ◌++◌, ◌+◌, ◌∷◌, if◌then◌else◌, length, suc, ℕ, str_eq, keep,
}
use turborg.Base.Int.{le_pos, ℤ, negsuc, pos}
use turborg.Base.Time.{Time}
use turborg.Base.Text.{codes, is_empty}

-- The operations of a store that the lifts use. Neither reports an error: a Get that fails finds
-- nothing, and a Set that fails does nothing.
pub record Store (S : Type 0) : Type 0 where
  pub get : Time → Str → Str → S → Option Str × S
  pub set : Time → Str → Str → Str → ℤ → S → S

-- `due` is in seconds since 1970.
pub record PendingLift : Type 0 where
  pub channel : Str
  pub modes : Str
  pub arg : Str
  pub due : ℤ

-- json.Marshal and json.Unmarshal of a list of lifts. What is written is not empty, and it is read
-- back if the strings of the lifts are valid UTF-8, for which `is_utf8` stands.
pub record Codec : Type 0 where
  pub encode : List PendingLift → Str
  pub decode : Str → Option (List PendingLift)
  pub is_utf8 : Str → Bool
  pub decode-encode :
      (ls : List PendingLift)
      → All (λ l. (is_utf8 l.channel ≡ true) × (is_utf8 l.modes ≡ true) × (is_utf8 l.arg ≡ true)) ls
      → decode (encode ls) ≡ some ls
  pub encode_full : (ls : List PendingLift) → is_empty (encode ls) ≡ false

abbrev pub second : ℕ
second = 1000000000

-- time.Duration(secs) * time.Second, in 64 bits.
unfoldable pub seconds : ℕ → ℤ
seconds secs =
    let n = secs * second % 2 ^ 64 in if ltb n (2 ^ 63) then pos n else negsuc (2 ^ 64 - n - 1)

-- now.Add(d).Unix()
unfoldable pub unix_after : Time → ℤ → ℤ
unix_after now (pos d) = pos ((now + d) / second)
unix_after now (negsuc n) =
    if ltb n now then pos ((now - n - 1) / second) else negsuc ((n - now) / second)

abbrev pub is_due : ℕ → PendingLift → Bool
is_due cutoff l = le_pos l.due cutoff

-- A call of SetMode on the actor.
pub record ModeCall : Type 0 where
  pub channel : Str
  pub modes : Str
  pub args : List Str

unfoldable pub call_of : PendingLift → ModeCall
call_of l = record {
  channel = l.channel;
  modes = l.modes;
  args = if is_empty l.arg then [] else l.arg ∷ [];
}

-- What the engine keeps of lifts, with its store.
pub record Lifting (S : Type 0) : Type 0 where
  pub lifts : List PendingLift
  pub loaded : Bool
  pub store : S

abbrev pub lift_ns : Str
lift_ns = codes "__lifts"

abbrev pub lift_key : Str
lift_key = codes "pending"

module _ {S : Type 0} (st : Store S) (c : Codec) where
  -- The saved lifts, or the ones that are there.
  unfoldable pub hydrate : Option Str → List PendingLift → List PendingLift
  hydrate none ls = ls
  hydrate (some raw) ls = if is_empty raw then ls else or_zero (c.decode raw) ls

  unfoldable pub ensure_lifts_loaded : Time → Lifting S → Lifting S
  unfolding hydrate
  ensure_lifts_loaded now m =
      let (raw, after) = st.get now lift_ns lift_key m.store in
      if m.loaded then m else record { lifts = hydrate raw m.lifts; loaded = true; store = after }

  unfoldable pub persist_lifts : Time → Lifting S → Lifting S
  persist_lifts now m = record m {
    store = st.set now lift_ns lift_key (c.encode m.lifts) (pos 0) m.store;
  }

  unfoldable pub schedule_lift : Time → Str → Str → Str → ℕ → Lifting S → Lifting S
  unfolding ensure_lifts_loaded persist_lifts unix_after seconds
  schedule_lift now channel modes arg secs m =
      let loaded = ensure_lifts_loaded now m in
      let lift : PendingLift = record {
        channel = channel;
        modes = modes;
        arg = arg;
        due = unix_after now (seconds secs);
      } in
      persist_lifts now (record loaded { lifts = loaded.lifts ++ lift ∷ [] })

  -- if len(due) == 0; otherwise the lifts that stay are saved.
  abbrev pub settle : Time → Lifting S → List PendingLift → Lifting S → Lifting S
  settle now m [] kept = m
  settle now m (l ∷ due) kept = persist_lifts now kept

  -- The due lifts, which are taken out of the list.
  unfoldable pub take_due : Time → Lifting S → List PendingLift × Lifting S
  unfolding persist_lifts
  take_due now m =
      let cutoff = now / second in
      let due = keep (is_due cutoff) m.lifts in
      let kept = record m { lifts = keep (λ l. not (is_due cutoff l)) m.lifts } in
      (due, settle now m due kept)

  -- What a sweep does under its lock: the due lifts are taken out, and the others are saved. The
  -- calls on the actor follow when the lock is released.
  unfoldable pub take_lifts : Time → Lifting S → List PendingLift × Lifting S
  unfolding ensure_lifts_loaded take_due
  take_lifts now m = take_due now (ensure_lifts_loaded now m)
