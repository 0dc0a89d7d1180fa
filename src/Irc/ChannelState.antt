-- ===== src/Irc/ChannelState.antt =====
-- internal/connector/irc/state.go: what the connector knows of the channels that it is in. A method
-- on `*ChannelState` returns the new record; the mutex makes each method one step. A snapshot copy
-- is the record itself, since the model shares nothing.
pub mod Lookup
pub mod Consistency
pub mod Members
pub mod Isolation
pub mod Size
mod Examples
use turborg.Base.Map.{Map, delete, insert, keys, lookup}
use turborg.Base.Text.{equal_fold, is_empty, to_lower}
use turborg.Base.Int.{clamp, le_pos, ℤ}
use turborg.Base.{
  nat_eq, Bool, List, Option, Str, [], contains, false, if◌then◌else◌, is_some, length, none,
  remove_first, some, str_eq, true, ℕ, ◌++◌, ◌||◌, ◌∷◌,
}

pub record ChannelInfo : Type 0 where
  pub name : Str
  pub topic : Str
  pub topic_set : Bool
  pub topic_set_by : Str
  pub topic_set_at : ℕ
  pub members : Map Str Str
  pub names_complete : Bool

pub record ChannelState : Type 0 where
  pub channels : Map Str ChannelInfo
  pub order : List Str

abbrev pub new_channel_state : ChannelState
new_channel_state = record { channels = []; order = [] }

abbrev pub new_info : Str → ChannelInfo
new_info channel = record {
  name = channel;
  topic = [];
  topic_set = false;
  topic_set_by = [];
  topic_set_at = 0;
  members = [];
  names_complete = false;
}

-- The bytes of "@+%&~" and of "@&~".
abbrev pub member_prefixes : List ℕ
member_prefixes = b'@' ∷ b'+' ∷ b'%' ∷ b'&' ∷ b'~' ∷ []

abbrev pub operator_prefixes : List ℕ
operator_prefixes = b'@' ∷ b'&' ∷ b'~' ∷ []

-- strings.ContainsAny(s, chars)
unfoldable pub contains_any : Str → List ℕ → Bool
contains_any [] chars = false
contains_any (c ∷ s) chars = contains c chars || contains_any s chars

unfoldable pub get : Str → ChannelState → Option ChannelInfo
get channel s = lookup (to_lower channel) s.channels

-- The loop over the members: the first one that matches decides.
unfoldable pub member_is_operator : Str → Map Str Str → Bool
unfolding contains_any
member_is_operator nick [] = false
member_is_operator nick ((member, prefix) ∷ ms) =
    let rest = member_is_operator nick ms in
    if equal_fold member nick then contains_any prefix operator_prefixes else rest

abbrev pub in_channel {ℓ} : {A : Type ℓ} → Option ChannelInfo → A → (ChannelInfo → A) → A
in_channel none d f = d
in_channel (some info) d f = f info

unfoldable pub is_operator : Str → Str → ChannelState → Bool
unfolding member_is_operator
is_operator channel nick s =
    if is_empty nick
    then false
    else in_channel (lookup (to_lower channel) s.channels) false
        (λ info. member_is_operator nick info.members)

unfoldable pub count : ChannelState → ℕ
count s = length s.order

unfoldable pub infos : Map Str ChannelInfo → List Str → List ChannelInfo
infos channels [] = []
infos channels (key ∷ keys) =
    let rest = infos channels keys in in_channel (lookup key channels) rest (λ info. info ∷ rest)

unfoldable pub joined_channels : ChannelState → List ChannelInfo
unfolding infos
joined_channels s = infos s.channels s.order

-- s.channels[key] = info; s.order = append(s.order, key)
abbrev pub add_channel : Str → ChannelInfo → ChannelState → ChannelState
add_channel key info s = record {
  channels = insert key info s.channels;
  order = s.order ++ key ∷ [];
}

unfoldable pub on_self_join : Str → ChannelState → ChannelState
on_self_join channel s =
    let key = to_lower channel in
    in_channel (lookup key s.channels) (add_channel key (new_info channel) s) (λ _. s)

unfoldable pub on_self_part : Str → ChannelState → ChannelState
on_self_part channel s =
    let key = to_lower channel in
    record { channels = delete key s.channels; order = remove_first key s.order }

-- A write through the pointer to the info of a known channel; nothing if it is not known.
unfoldable pub update : Str → (ChannelInfo → ChannelInfo) → ChannelState → ChannelState
update channel f s =
    let key = to_lower channel in
    in_channel (lookup key s.channels) s
      (λ info. record s { channels = insert key (f info) s.channels })

abbrev pub with_topic : Str → ChannelInfo → ChannelInfo
with_topic topic info = record info { topic = topic; topic_set = true }

unfoldable pub set_topic : Str → Str → ChannelState → ChannelState
unfolding update
set_topic channel topic s = update channel (with_topic topic) s

unfoldable pub clear_topic : Str → ChannelState → ChannelState
unfolding update
clear_topic channel s = update channel (with_topic []) s

-- `setAt` is signed: only a positive one is stored.
abbrev pub with_topic_meta : Str → ℤ → ChannelInfo → ChannelInfo
with_topic_meta set_by set_at info = record info {
  topic_set_by = if is_empty set_by then info.topic_set_by else set_by;
  topic_set_at = if le_pos set_at 0 then info.topic_set_at else clamp set_at;
}

unfoldable pub set_topic_meta : Str → Str → ℤ → ChannelState → ChannelState
unfolding update
set_topic_meta channel set_by set_at s = update channel (with_topic_meta set_by set_at) s

unfoldable pub split_member_prefix : Str → Str × Str
split_member_prefix [] = ([], [])
split_member_prefix (c ∷ rest) =
    if contains c member_prefixes then (c ∷ [], rest) else ([], c ∷ rest)

-- The loop over the entries of one NAMES line.
unfoldable pub add_names : List Str → Map Str Str → Map Str Str
unfolding split_member_prefix
add_names [] members = members
add_names (entry ∷ entries) members =
    let (prefix, nick) = split_member_prefix entry in
    add_names entries (if is_empty nick then members else insert nick prefix members)

-- A line that comes after a complete list starts a new list.
abbrev pub restart : ChannelInfo → ChannelInfo
restart info =
    if info.names_complete then record info { members = []; names_complete = false } else info

abbrev pub with_names : List Str → ChannelInfo → ChannelInfo
with_names entries info = record info { members = add_names entries info.members }

unfoldable pub on_names_reply : Str → List Str → ChannelState → ChannelState
unfolding add_names
on_names_reply channel entries s =
    let key = to_lower channel in
    in_channel (lookup key s.channels) (add_channel key (with_names entries (new_info channel)) s)
      (λ info. record s { channels = insert key (with_names entries (restart info)) s.channels })

unfoldable pub on_names_end : Str → ChannelState → ChannelState
unfolding update
on_names_end channel s = update channel (λ info. record info { names_complete = true }) s

abbrev pub with_member : Str → ChannelInfo → ChannelInfo
with_member nick info = record info {
  members =
      if is_some (lookup nick info.members) then info.members else insert nick [] info.members;
}

unfoldable pub on_member_join : Str → Str → ChannelState → ChannelState
unfolding update
on_member_join channel nick s = if is_empty nick then s else update channel (with_member nick) s

abbrev pub without_member : Str → ChannelInfo → ChannelInfo
without_member nick info = record info { members = delete nick info.members }

unfoldable pub on_member_part : Str → Str → ChannelState → ChannelState
unfolding update
on_member_part channel nick s = update channel (without_member nick) s

unfoldable pub on_member_kick : Str → Str → ChannelState → ChannelState
unfolding on_member_part
on_member_kick channel nick s = on_member_part channel nick s

abbrev pub with_prefix : Str → Str → ChannelInfo → ChannelInfo
with_prefix nick prefix info = record info {
  members =
      if is_some (lookup nick info.members) then insert nick prefix info.members else info.members;
}

unfoldable pub set_member_prefix : Str → Str → Str → ChannelState → ChannelState
unfolding update
set_member_prefix channel nick prefix s =
    if is_empty nick then s else update channel (with_prefix nick prefix) s

-- The loop over all channels.
unfoldable pub each : (ChannelInfo → ChannelInfo) → Map Str ChannelInfo → Map Str ChannelInfo
each f [] = []
each f ((key, info) ∷ m) = (key, f info) ∷ each f m

unfoldable pub on_member_quit : Str → ChannelState → ChannelState
unfolding each
on_member_quit nick s = record s { channels = each (without_member nick) s.channels }

unfoldable pub names_with : Str → Map Str ChannelInfo → List Str
names_with nick [] = []
names_with nick ((key, info) ∷ m) =
    let rest = names_with nick m in
    if is_some (lookup nick info.members) then info.name ∷ rest else rest

unfoldable pub channels_containing : Str → ChannelState → List Str
unfolding names_with
channels_containing nick s = if is_empty nick then [] else names_with nick s.channels

-- The new entry is written before the old one is deleted.
abbrev pub renamed : Str → Str → Map Str Str → Map Str Str
renamed old new members = elim (lookup old members) [
  | none ↦ members
  | some prefix ↦ delete old (insert new prefix members)
]

abbrev pub with_renamed : Str → Str → ChannelInfo → ChannelInfo
with_renamed old new info = record info { members = renamed old new info.members }

unfoldable pub on_nick_change : Str → Str → ChannelState → ChannelState
unfolding each
on_nick_change old new s = record s { channels = each (with_renamed old new) s.channels }
