-- ===== src/Irc/ChannelState/Consistency.antt =====
-- The two containers of state.go, the map and the order, always name the same channels.
use turborg.Base.Int.{ℤ}
use turborg.Base.Text.{is_empty, to_lower}
use turborg.Base.{
  All, Bool, beq_refl, false, if◌then◌else◌, length, remove_first-snoc, sym, true, ◌∙◌, Distinct,
  Distinct-remove_first, Distinct-snoc, List, Option-cases, Str, [], arith, contains,
  contains-append, contains-remove_first, inl, inr, is_some, none, refl, some, str_beq_iff, str_eq,
  ◌++◌, ◌∷◌, ◌≡◌,
}
use turborg.Base.Map.{
  Map, delete-insert_absent, IsMap, delete-IsMap, insert, insert-IsMap, keys, lookup, lookup-delete,
  lookup-insert,
}
use turborg.Irc.ChannelState.{
  with_topic, with_topic_meta, with_member, without_member, with_prefix, with_renamed, ChannelInfo,
  ChannelState, new_channel_state, new_info, update, each, get, count, infos, joined_channels,
  on_self_join, on_self_part, set_topic, clear_topic, set_topic_meta, on_names_reply, on_names_end,
  on_member_join, on_member_part, on_member_kick, set_member_prefix, on_member_quit, on_nick_change,
  with_names, restart,
}
use turborg.Irc.ChannelState.Lookup.{lookup-each, keys-each}

pub record IsConsistent (s : ChannelState) : Type 0 where
  pub distinct : Distinct s.order
  pub is_map : IsMap s.channels
  pub agree : (k : Str) → contains k s.order ≡ is_some (lookup k s.channels)

pub new-IsConsistent : IsConsistent new_channel_state
unfolding lookup keys
new-IsConsistent = record { distinct = tt; is_map = tt; agree = λ k. refl }

-- A new key at the end of both.
add-IsConsistent :
    (key : Str) (info : ChannelInfo) (s : ChannelState)
    → IsConsistent s
    → lookup key s.channels ≡ none
    → IsConsistent (record { channels = insert key info s.channels; order = s.order ++ key ∷ [] })
add-IsConsistent key info s c e = record {
  distinct = Distinct-snoc s.order key c.distinct (ground (arith, c.agree key));
  is_map = insert-IsMap key info s.channels c.is_map;
  agree = λ k.
      ground (
        arith,
        contains-append k s.order (key ∷ []),
        c.agree k,
        lookup-insert key k info s.channels,
      );
}

-- A write at a key that is there.
write-IsConsistent :
    (key : Str) (old info : ChannelInfo) (s : ChannelState)
    → IsConsistent s
    → lookup key s.channels ≡ some old
    → IsConsistent (record s { channels = insert key info s.channels })
write-IsConsistent key old info s c e = record {
  distinct = c.distinct;
  is_map = insert-IsMap key info s.channels c.is_map;
  agree = λ k. ground (arith, c.agree k, lookup-insert key k info s.channels, str_beq_iff key k);
}

update-IsConsistent :
    (channel : Str) (f : ChannelInfo → ChannelInfo) (s : ChannelState)
    → IsConsistent s
    → IsConsistent (update channel f s)
unfolding update
update-IsConsistent channel f s c =
    let key = to_lower channel in
    elim (Option-cases (lookup key s.channels)) [
      | inl e ↦ rw e c
      | inr (info, e) ↦ rw e (write-IsConsistent key info (f info) s c e)
    ]

join-IsConsistent :
    (channel : Str) (s : ChannelState) → IsConsistent s → IsConsistent (on_self_join channel s)
unfolding on_self_join
join-IsConsistent channel s c =
    let key = to_lower channel in
    elim (Option-cases (lookup key s.channels)) [
      | inl e ↦ rw e (add-IsConsistent key (new_info channel) s c e)
      | inr (info, e) ↦ rw e c
    ]

part-IsConsistent :
    (channel : Str) (s : ChannelState) → IsConsistent s → IsConsistent (on_self_part channel s)
unfolding on_self_part
part-IsConsistent channel s c =
    let key = to_lower channel in
    record {
      distinct = Distinct-remove_first key s.order c.distinct;
      is_map = delete-IsMap key s.channels c.is_map;
      agree = λ k. ground (
        arith,
        contains-remove_first key k s.order c.distinct,
        c.agree k,
        lookup-delete key k s.channels,
      );
    }

names-IsConsistent :
    (channel : Str) (entries : List Str) (s : ChannelState)
    → IsConsistent s
    → IsConsistent (on_names_reply channel entries s)
unfolding on_names_reply
names-IsConsistent channel entries s c =
    let key = to_lower channel in
    elim (Option-cases (lookup key s.channels)) [
      | inl e ↦ rw e (add-IsConsistent key (with_names entries (new_info channel)) s c e)
      | inr (info, e) ↦ rw e (write-IsConsistent key info (with_names entries (restart info)) s c e)
    ]

each-IsConsistent :
    (f : ChannelInfo → ChannelInfo) (s : ChannelState)
    → IsConsistent s
    → IsConsistent (record s { channels = each f s.channels })
each-IsConsistent f s c = record {
  distinct = c.distinct;
  is_map = rw keys-each c.is_map;
  agree = λ k. ground (arith, c.agree k, lookup-each k f s.channels);
}

-- The methods that write, as the connector's read loop calls them.
pub data Event : Type 0 where
  self_join self_part names_end quit : Str → Event
  topic member_join member_part member_kick nick_change : Str → Str → Event
  no_topic : Str → Event
  topic_meta : Str → Str → ℤ → Event
  names : Str → List Str → Event
  mode : Str → Str → Str → Event

unfoldable pub handle : ChannelState → Event → ChannelState
handle s (self_join channel) = on_self_join channel s
handle s (self_part channel) = on_self_part channel s
handle s (names_end channel) = on_names_end channel s
handle s (quit nick) = on_member_quit nick s
handle s (topic channel text) = set_topic channel text s
handle s (member_join channel nick) = on_member_join channel nick s
handle s (member_part channel nick) = on_member_part channel nick s
handle s (member_kick channel nick) = on_member_kick channel nick s
handle s (nick_change old new) = on_nick_change old new s
handle s (no_topic channel) = clear_topic channel s
handle s (topic_meta channel set_by set_at) = set_topic_meta channel set_by set_at s
handle s (names channel entries) = on_names_reply channel entries s
handle s (mode channel nick prefix) = set_member_prefix channel nick prefix s

unfoldable pub handle_all : ChannelState → List Event → ChannelState
unfolding handle
handle_all s [] = s
handle_all s (ev ∷ evs) = handle_all (handle s ev) evs

if-IsConsistent :
    (b : Bool) (s t : ChannelState)
    → IsConsistent s
    → IsConsistent t
    → IsConsistent (if b then s else t)
if-IsConsistent true s t c d = c
if-IsConsistent false s t c d = d

handle-IsConsistent : (s : ChannelState) (ev : Event) → IsConsistent s → IsConsistent (handle s ev)
unfolding handle set_topic clear_topic set_topic_meta on_names_end on_member_join on_member_part
    on_member_kick set_member_prefix on_member_quit on_nick_change
handle-IsConsistent s (self_join channel) c = join-IsConsistent channel s c
handle-IsConsistent s (self_part channel) c = part-IsConsistent channel s c
handle-IsConsistent s (names channel entries) c = names-IsConsistent channel entries s c
handle-IsConsistent s (names_end channel) c = update-IsConsistent channel _ s c
handle-IsConsistent s (topic channel text) c = update-IsConsistent channel (with_topic text) s c
handle-IsConsistent s (no_topic channel) c = update-IsConsistent channel (with_topic []) s c
handle-IsConsistent s (topic_meta channel set_by set_at) c =
    update-IsConsistent channel (with_topic_meta set_by set_at) s c
handle-IsConsistent s (member_join channel nick) c =
    if-IsConsistent (is_empty nick) s (update channel (with_member nick) s) c
      (update-IsConsistent channel (with_member nick) s c)
handle-IsConsistent s (member_part channel nick) c =
    update-IsConsistent channel (without_member nick) s c
handle-IsConsistent s (member_kick channel nick) c =
    update-IsConsistent channel (without_member nick) s c
handle-IsConsistent s (mode channel nick prefix) c =
    if-IsConsistent (is_empty nick) s (update channel (with_prefix nick prefix) s) c
      (update-IsConsistent channel (with_prefix nick prefix) s c)
handle-IsConsistent s (quit nick) c = each-IsConsistent (without_member nick) s c
handle-IsConsistent s (nick_change old new) c = each-IsConsistent (with_renamed old new) s c

-- After any events, from the empty state or any consistent one, the map and the order name the
-- same channels, each once.
pub handle_all-IsConsistent :
    (s : ChannelState) (evs : List Event) → IsConsistent s → IsConsistent (handle_all s evs)
unfolding handle_all
handle_all-IsConsistent s [] c = c
handle_all-IsConsistent s (ev ∷ evs) c =
    handle_all-IsConsistent (handle s ev) evs (handle-IsConsistent s ev c)

length-infos :
    (channels : Map Str ChannelInfo) (ks : List Str)
    → All (λ k. is_some (lookup k channels) ≡ true) ks
    → length (infos channels ks) ≡ length ks
unfolding infos
length-infos channels [] h = refl
length-infos channels (k ∷ ks) h = ground (arith, length-infos channels ks h.1, h.0)

All-contains :
    (ks all : List Str)
    → ((k : Str) → contains k ks ≡ true → contains k all ≡ true)
    → All (λ k. contains k all ≡ true) ks
All-contains [] all h = tt
All-contains (k ∷ ks) all h =
    (h k (ground (arith, beq_refl k)), All-contains ks all (λ j m. h j (ground arith)))

known :
    (s : ChannelState) (ks : List Str)
    → IsConsistent s
    → All (λ k. contains k s.order ≡ true) ks
    → All (λ k. is_some (lookup k s.channels) ≡ true) ks
known s [] c h = tt
known s (k ∷ ks) c h = (sym (c.agree k) ∙ h.0, known s ks c h.1)

-- The cheap count is the number of the channels that `JoinedChannels` lists: no entry of the order
-- is skipped.
pub count-joined_channels :
    (s : ChannelState) → IsConsistent s → count s ≡ length (joined_channels s)
unfolding count joined_channels
count-joined_channels s c =
    sym (
      length-infos s.channels s.order (known s s.order c (All-contains s.order s.order (λ k h. h))))

-- A channel that the bot joins and leaves again, and was not in before, leaves no trace.
pub part-join :
    (channel : Str) (s : ChannelState)
    → IsConsistent s
    → get channel s ≡ none
    → on_self_part channel (on_self_join channel s) ≡ s
unfolding get on_self_join on_self_part
part-join channel s c h =
    let key = to_lower channel in
    ground (
      arith,
      h,
      c.agree key,
      delete-insert_absent key (new_info channel) s.channels,
      remove_first-snoc key s.order,
    )
