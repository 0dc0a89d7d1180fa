-- ===== src/Messages/Store/Ring.antt =====
-- The history against a log of everything that was submitted.
use mathlib.Core.List.{reverse, append-nil, append_assoc}
use mathlib.Core.Bool.{false≢true}
use turborg.Base.{
  or_zero, some, str_beq_iff, true, Str, ap, false, if◌then◌else◌, inl, inr, leb, ltb, str_beq, sym,
  List, Option, [], arith, length, refl, suc, take, zero, ℕ, ◌++◌, ◌-◌, ◌∙◌, ◌∷◌, ◌≡◌, ◌≤◌,
  Bool-cases, keep, length-append, str_eq,
}
use turborg.Base.Map.{lookup, lookup-insert}
use turborg.Base.Int.{ℤ, clamp, le_pos}
use turborg.Base.Text.{is_empty}
use turborg.Messages.Store.{
  new_memory_store, per_channel_cap, Message, MemoryStore, bucket, collect, drop, is_older, recent,
  submit,
}

-- The last `n` elements, or all.
unfoldable pub last : {A : Type 0} → ℕ → List A → List A
unfolding drop
last n xs = drop (length xs - n) xs

module _ {A : Type 0} where
  drop-zero : (xs : List A) → drop 0 xs ≡ xs
  unfolding drop
  drop-zero [] = refl
  drop-zero (x ∷ xs) = refl

  drop-snoc :
      (d : ℕ) (xs : List A) (m : A) → d ≤ length xs → drop d xs ++ m ∷ [] ≡ drop d (xs ++ m ∷ [])
  unfolding drop
  drop-snoc zero [] m h = refl
  drop-snoc (suc d) [] m h = absurd (ground (arith, h))
  drop-snoc zero (x ∷ xs) m h = refl
  drop-snoc (suc d) (x ∷ xs) m h = drop-snoc d xs m (ground (arith, h))

  drop-one : (d : ℕ) (xs : List A) → drop 1 (drop d xs) ≡ drop (suc d) xs
  unfolding drop
  drop-one zero [] = refl
  drop-one (suc d) [] = refl
  drop-one zero (x ∷ xs) = refl
  drop-one (suc d) (x ∷ xs) = drop-one d xs

  length-drop : (d : ℕ) (xs : List A) → length (drop d xs) ≡ length xs - d
  unfolding drop
  length-drop d [] = omega arith
  length-drop zero (x ∷ xs) = omega arith
  length-drop (suc d) (x ∷ xs) = length-drop d xs ∙ omega arith

  last-last : (n : ℕ) (xs : List A) → last n (last n xs) ≡ last n xs
  unfolding last
  last-last n xs =
      let d = length xs - n in
      ap (λ (k : ℕ). drop k (drop d xs)) (ground (arith, length-drop d xs)) ∙ drop-zero (drop d xs)

  -- What falls out of the ring would not be among the last ones of the log either.
  last-last-snoc :
      (n : ℕ) (xs : List A) (m : A) → last n (last n xs ++ m ∷ []) ≡ last n (xs ++ m ∷ [])
  unfolding last
  last-last-snoc n xs m = elim (Bool-cases (leb (length xs) n)) [
    | inl short ↦
        let whole : drop (length xs - n) xs ≡ xs =
          ap (λ (k : ℕ). drop k xs) (ground (arith, short)) ∙ drop-zero xs in
        ap (λ (ys : List A). drop (length (ys ++ m ∷ []) - n) (ys ++ m ∷ [])) whole
    | inr long ↦
        let d = length xs - n in
        let one : length (drop d xs ++ m ∷ []) - n ≡ 1 =
          ground (arith, length-append (drop d xs) (m ∷ []), length-drop d xs, long) in
        let next : length (xs ++ m ∷ []) - n ≡ suc d =
          ground (arith, length-append xs (m ∷ []), long) in
        ap (λ (k : ℕ). drop k (drop d xs ++ m ∷ [])) one
        ∙ ap (drop 1) (drop-snoc d xs m (omega arith))
        ∙ drop-one d (xs ++ m ∷ [])
        ∙ ap (λ (k : ℕ). drop k (xs ++ m ∷ [])) (sym next)
  ]

  last-last-append : (n : ℕ) (xs ys : List A) → last n (last n xs ++ ys) ≡ last n (xs ++ ys)
  last-last-append n xs [] =
      ap (last n) (append-nil (last n xs)) ∙ last-last n xs ∙ ap (last n) (sym (append-nil xs))
  last-last-append n xs (y ∷ ys) =
      ap (last n) (sym (append_assoc (last n xs) (y ∷ []) ys))
      ∙ sym (last-last-append n (last n xs ++ y ∷ []) ys)
      ∙ ap (λ (zs : List A). last n (zs ++ ys)) (last-last-snoc n xs y)
      ∙ last-last-append n (xs ++ y ∷ []) ys
      ∙ ap (last n) (append_assoc xs (y ∷ []) ys)

  -- The cut of Submit.
  cut-last :
      (n : ℕ) (xs : List A)
      → (if ltb n (length xs) then drop (length xs - n) xs else xs) ≡ last n xs
  unfolding last
  cut-last n xs = elim (Bool-cases (ltb n (length xs))) [
    | inl e ↦ rw e refl
    | inr e ↦ rw e (sym (ap (λ (k : ℕ). drop k xs) (ground (arith, e)) ∙ drop-zero xs))
  ]

collect-take-keep :
    (before : Option ℕ) (n : ℕ) (ms : List Message)
    → collect before n ms ≡ take n (keep (is_older before) ms)
unfolding collect
collect-take-keep before zero [] = refl
collect-take-keep before zero (m ∷ ms) = refl
collect-take-keep before (suc n) [] = refl
collect-take-keep before (suc n) (m ∷ ms) =
    ground (arith, collect-take-keep before n ms, collect-take-keep before (suc n) ms)

-- Everything that was submitted to a channel, the oldest first.
abbrev pub log : Str → List Message → List Message
log channel ms = keep (λ m. str_beq m.channel channel) ms

unfoldable pub submit_all : List Message → MemoryStore → MemoryStore
submit_all [] s = s
submit_all (m ∷ ms) s = submit_all ms (submit m s)

submit-ring_cap : (m : Message) (s : MemoryStore) → (submit m s).ring_cap ≡ s.ring_cap
unfolding submit
submit-ring_cap m s = elim (Bool-cases (is_empty m.channel)) [
  | inl e ↦ rw e refl
  | inr e ↦ rw e refl
]

submit-named :
    (channel : Str) (m : Message) (s : MemoryStore)
    → is_empty m.channel ≡ false
    → bucket channel (submit m s)
      ≡ or_zero
          (if str_beq m.channel channel
            then some (last s.ring_cap (bucket m.channel s ++ m ∷ []))
            else lookup channel s.channels)
          []
unfolding submit
submit-named channel m s h =
    let grown = bucket m.channel s ++ m ∷ [] in
    let kept =
      if ltb s.ring_cap (length grown) then drop (length grown - s.ring_cap) grown else grown in
    rw h (
      ap (λ (o : Option (List Message)). or_zero o [])
        (lookup-insert m.channel channel kept s.channels)
      ∙ ap
          (λ (k : List Message).
            or_zero (if str_beq m.channel channel then some k else lookup channel s.channels) [])
          (cut-last s.ring_cap grown))

submit-unnamed :
    (channel : Str) (m : Message) (s : MemoryStore)
    → is_empty m.channel ≡ true
    → bucket channel (submit m s) ≡ bucket channel s
unfolding submit
submit-unnamed channel m s h = rw h refl

not_empty : (x y : Str) → is_empty x ≡ true → is_empty y ≡ false → str_beq x y ≡ false
unfolding str_beq
not_empty [] [] h k = absurd (false≢true (sym k))
not_empty [] (d ∷ y) h k = refl
not_empty (c ∷ x) y h k = absurd (false≢true h)

bucket-submit :
    (channel : Str) (m : Message) (s : MemoryStore)
    → is_empty channel ≡ false
    → bucket channel (submit m s) ≡ (
        if str_beq m.channel channel
        then last s.ring_cap (bucket channel s ++ m ∷ [])
        else bucket channel s)
bucket-submit channel m s h = elim (Bool-cases (is_empty m.channel)) [
  | inl e ↦ rw (not_empty m.channel channel e h) (submit-unnamed channel m s e)
  | inr e ↦ elim (Bool-cases (str_beq m.channel channel)) [
    | inl same ↦
        submit-named channel m s e
        ∙ rw same (
            ap (λ (c : Str). last s.ring_cap (bucket c s ++ m ∷ []))
              ((str_beq_iff m.channel channel).0 same))
    | inr differ ↦ submit-named channel m s e ∙ rw differ refl
  ]
]

submitted :
    (channel : Str) (ms : List Message) (s after : MemoryStore) (xs : List Message)
    → after.ring_cap ≡ s.ring_cap
    → bucket channel after ≡ last s.ring_cap xs
    → (bucket channel after ≡ last after.ring_cap xs
        → bucket channel (submit_all ms after) ≡ last after.ring_cap (xs ++ log channel ms))
    → bucket channel (submit_all ms after) ≡ last s.ring_cap (xs ++ log channel ms)
submitted channel ms s after xs kept now rest =
    rest (now ∙ ap (λ (k : ℕ). last k xs) (sym kept))
    ∙ ap (λ (k : ℕ). last k (xs ++ log channel ms)) kept

submit_all-ring :
    (channel : Str) (ms : List Message) (s : MemoryStore) (xs : List Message)
    → is_empty channel ≡ false
    → bucket channel s ≡ last s.ring_cap xs
    → bucket channel (submit_all ms s) ≡ last s.ring_cap (xs ++ log channel ms)
unfolding submit_all
submit_all-ring channel [] s xs h e = e ∙ ap (last s.ring_cap) (sym (append-nil xs))
submit_all-ring channel (m ∷ ms) s xs h e = elim (Bool-cases (str_beq m.channel channel)) [
  | inl same ↦
      let now : bucket channel (submit m s) ≡ last s.ring_cap (xs ++ m ∷ []) =
        bucket-submit channel m s h
        ∙ rw same (
            ap (λ (b : List Message). last s.ring_cap (b ++ m ∷ [])) e
            ∙ last-last-snoc s.ring_cap xs m) in
      submitted channel ms s (submit m s) (xs ++ m ∷ []) (submit-ring_cap m s) now
        (λ k. submit_all-ring channel ms (submit m s) (xs ++ m ∷ []) h k)
      ∙ rw same (ap (last s.ring_cap) (append_assoc xs (m ∷ []) (log channel ms)))
  | inr differ ↦
      let now : bucket channel (submit m s) ≡ last s.ring_cap xs =
        bucket-submit channel m s h ∙ rw differ e in
      submitted channel ms s (submit m s) xs (submit-ring_cap m s) now
        (λ k. submit_all-ring channel ms (submit m s) xs h k)
      ∙ rw differ refl
]

-- Whatever was submitted, a channel's recent messages are the newest of those that are older than
-- the bound among its last ones in a log of everything: at most `limit` of them, the newest first.
-- How many of the log count is the capacity of the store, 200 where none was given.
pub recent_exact :
    (n : ℤ) (ms : List Message) (channel : Str) (before : Option ℕ) (limit : ℤ)
    → is_empty channel ≡ false
    → le_pos limit 0 ≡ false
    → recent channel before limit (submit_all ms (new_memory_store n))
      ≡ take (clamp limit) (
          keep
            (is_older before)
            (reverse (last (if le_pos n 0 then per_channel_cap else clamp n) (log channel ms))))
unfolding recent new_memory_store
recent_exact n ms channel before limit h k =
    let s = new_memory_store n in
    let ring = submit_all-ring channel ms s [] h (unfold last drop lookup in refl) in
    rw (h, k)
      (collect-take-keep before (clamp limit) (reverse (bucket channel (submit_all ms s)))
        ∙ ap (λ (b : List Message). take (clamp limit) (keep (is_older before) (reverse b))) ring)
