-- ===== src/Messages/Store/Examples.antt =====
-- A history of two lines for each channel.
use mathlib.Core.List.{reverse}
use turborg.Base.{List, String, [], keep, refl, some, str_beq, take, ℕ, ◌∷◌, ◌≡◌, str_eq}
use turborg.Base.Int.{pos}
use turborg.Base.Text.{codes}
use turborg.Messages.Store.{Message, drop, is_older, new_memory_store, recent}
use turborg.Messages.Store.Ring.{last, log, recent_exact, submit_all}

abbrev line : String → ℕ → Message
line channel ts = record {
  id = [];
  channel = codes channel;
  nick = codes "ann";
  text = codes "hi";
  ts = ts;
}

abbrev lines : List Message
lines = line "#a" 1 ∷ line "#b" 2 ∷ line "#a" 3 ∷ line "" 4 ∷ line "#a" 5 ∷ []

kept : last 2 (log (codes "#a") lines) ≡ line "#a" 3 ∷ line "#a" 5 ∷ []
unfolding last drop str_beq
kept = refl

recent_exact_example :
    recent (codes "#a") (some 5) (pos 10) (submit_all lines (new_memory_store (pos 2)))
    ≡ take 10 (keep (is_older (some 5)) (reverse (last 2 (log (codes "#a") lines))))
recent_exact_example = recent_exact (pos 2) lines (codes "#a") (some 5) (pos 10) refl refl
