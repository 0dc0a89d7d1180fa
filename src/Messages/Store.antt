-- ===== src/Messages/Store.antt =====
-- internal/messages/messages.go: MemoryStore, the bounded history of each channel. The mutex makes
-- each method one step. The zero time, which means no bound, is `none`; neither method returns an
-- error.
pub mod Ring
mod Examples
use turborg.Base.{
  Bool, List, Option, Str, [], if◌then◌else◌, length, ltb, none, or_zero, some, str_eq, suc, true,
  zero, ℕ, ◌++◌, ◌-◌, ◌||◌, ◌∷◌,
}
use mathlib.Core.List.{reverse}
use turborg.Base.{str_eq}
use turborg.Base.Int.{ℤ, clamp, le_pos}
use turborg.Base.Map.{Map, insert, lookup}
use turborg.Base.Text.{is_empty}
use turborg.Base.Time.{Time}

abbrev pub per_channel_cap : ℕ
per_channel_cap = 200

pub record Message : Type 0 where
  pub id : Str
  pub channel : Str
  pub nick : Str
  pub text : Str
  pub ts : Time

pub record MemoryStore : Type 0 where
  pub ring_cap : ℕ
  pub channels : Map Str (List Message)

pub new_memory_store : ℤ → MemoryStore
new_memory_store n = record {
  ring_cap = if le_pos n 0 then per_channel_cap else clamp n;
  channels = [];
}

-- bucket[n:]
unfoldable pub drop : {A : Type 0} → ℕ → List A → List A
drop n [] = []
drop zero (x ∷ xs) = x ∷ xs
drop (suc n) (x ∷ xs) = drop n xs

-- s.channels[channel], the nil slice where the channel is not known.
abbrev pub bucket : Str → MemoryStore → List Message
bucket channel s = or_zero (lookup channel s.channels) []

pub submit : Message → MemoryStore → MemoryStore
unfolding drop
submit m s =
    let grown = bucket m.channel s ++ m ∷ [] in
    let kept =
      if ltb s.ring_cap (length grown) then drop (length grown - s.ring_cap) grown else grown in
    if is_empty m.channel then s else record s { channels = insert m.channel kept s.channels }

-- before.IsZero() || m.TS.Before(before)
abbrev pub is_older : Option Time → Message → Bool
is_older none m = true
is_older (some before) m = ltb m.ts before

-- The loop from the newest to the oldest; `limit` is the room that is left.
pub collect : Option Time → ℕ → List Message → List Message
collect before zero ms = []
collect before (suc limit) [] = []
collect before (suc limit) (m ∷ ms) =
    let skipped = collect before (suc limit) ms in
    let taken = collect before limit ms in if is_older before m then m ∷ taken else skipped

pub recent : Str → Option Time → ℤ → MemoryStore → List Message
unfolding collect
recent channel before limit s =
    if is_empty channel || le_pos limit 0
    then []
    else collect before (clamp limit) (reverse (bucket channel s))

pub len : Str → MemoryStore → ℕ
len channel s = length (bucket channel s)
