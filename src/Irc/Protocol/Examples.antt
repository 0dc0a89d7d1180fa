-- ===== src/Irc/Protocol/Examples.antt =====
-- Lines of IRC, as the code's tests have them.
use turborg.Base.Text.Split.{cut, strip_prefix}
use turborg.Base.Text.{to_upper}
use turborg.Base.{Str, [], refl, some, true, ◌∷◌, ◌≡◌}
use turborg.Irc.Protocol.{format_command, unescape_tag_value, parse, nick, split_ident_host}
use turborg.Irc.Protocol.Prefixed.{prefixed, parse-prefixed}
use turborg.Irc.Protocol.Tags.{escape, unescape-escape}

abbrev greeting : Str
greeting = b's' ∷ b'a' ∷ b'y' ∷ 32 ∷ b':' ∷ b')' ∷ []

abbrev privmsg : Str
privmsg = b'p' ∷ b'm' ∷ []

abbrev channel : Str
channel = b'#' ∷ b'c' ∷ []

abbrev source : Str
source = b'a' ∷ b'!' ∷ b'i' ∷ b'@' ∷ b'h' ∷ []

sourced : split_ident_host source ≡ some (b'i' ∷ [], b'h' ∷ [])
unfolding split_ident_host cut strip_prefix
sourced = refl

nick_of_source : nick source ≡ b'a' ∷ []
unfolding nick cut strip_prefix
nick_of_source = refl

parse-prefixed_example :
    let line = prefixed source (format_command privmsg (channel ∷ []) greeting true) in
    parse line ≡ record {
      raw = line;
      tags = [];
      prefix = source;
      command = to_upper privmsg;
      params = channel ∷ [];
      trailing = greeting;
    }
parse-prefixed_example =
    parse-prefixed source privmsg greeting (channel ∷ []) (refl, (refl, (refl, (refl, (refl, tt)))))
      ((refl, (refl, tt)), refl, refl) (((refl, (refl, tt)), refl), tt)
      (refl, (refl, (refl, (refl, (refl, (refl, tt))))))

unescape-escape_example : unescape_tag_value (escape greeting) ≡ greeting
unescape-escape_example = unescape-escape greeting
