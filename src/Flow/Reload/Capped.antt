-- ===== src/Flow/Reload/Capped.antt =====
-- The cap on the flows of a reload.
use turborg.Base.{
  Bool, List, Str, [], arith, false, if◌then◌else◌, inl, inr, length, not, refl, suc, take, ℕ, ◌&&◌,
  ◌+◌, ◌∷◌, ◌≡◌, ◌≤◌, length-append, str_eq, Bool-cases,
}
use turborg.Base.Int.{pos, ℤ, clamp, is_minus_one, le_pos, negsuc}
use turborg.Base.Map.{Map, insert}
use turborg.Flow.Graph.{Flow}
use turborg.Flow.Reload.{
  command_flow, event_flow, match_flow, skipped, webhook_flow, FlowSet, Sort, compile, install,
  install_all, is_skipped, no_flows, replace_flows, sort_of,
}

length-insert :
    {V : Type 0} (k : Str) (v : V) (es : Map Str V) → length (insert k v es) ≤ suc (length es)
unfolding insert
length-insert k v [] = omega arith
length-insert k v ((j, u) ∷ es) = ground (arith, length-insert k v es)

module _ {Config : Type 0} where
  abbrev pub size : FlowSet Config → ℕ
  size s = length s.events + length s.matches + length s.commands + length s.webhooks

  install-size :
      (sort : Sort) (f : Flow Config) (s : FlowSet Config)
      → size (install sort f s) ≤ (if is_skipped sort then size s else suc (size s))
  unfolding install
  install-size command_flow f s = ground (arith, length-append s.commands (compile f ∷ []))
  install-size match_flow f s = ground (arith, length-append s.matches (compile f ∷ []))
  install-size event_flow f s = ground (arith, length-append s.events (compile f ∷ []))
  install-size (webhook_flow key) f s = ground (arith, length-insert key (compile f) s.webhooks)
  install-size skipped f s = omega arith

below_cap : (limit : ℤ) (n : ℕ) → le_pos limit n ≡ false → suc n ≤ clamp limit
below_cap (pos k) n h = ground (arith, h)
below_cap (negsuc k) n h = absurd (ground arith)

module _ {Config : Type 0} (kind_known : Str → Bool) (compiles : Str → Bool) where
  install_all-size :
      (limit : ℤ) (fs : List (Flow Config)) (installed : ℕ) (s : FlowSet Config)
      → is_minus_one limit ≡ false
      → size s ≤ installed
      → installed ≤ clamp limit
      → size (install_all kind_known compiles limit fs installed s) ≤ clamp limit
  unfolding install_all
  install_all-size limit [] installed s h small room = ground (arith, small, room)
  install_all-size limit (f ∷ fs) installed s h small room =
      elim (Bool-cases (le_pos limit installed)) [
        | inl e ↦ rw (h, e) (ground (arith, small, room))
        | inr e ↦
            let sort = sort_of kind_known compiles f in
            let next =
              install_all-size limit fs (if is_skipped sort then installed else suc installed)
                (install sort f s) h (ground (arith, install-size sort f s, small))
                (ground (arith, below_cap limit installed e, room)) in
            rw (h, e) next
      ]

  -- With a cap other than -1 a reload installs no more flows than the cap, and none where it is
  -- negative; the flows of all the kinds count together.
  pub reload_capped :
      (limit : ℤ) (flows : List (Flow Config))
      → is_minus_one limit ≡ false
      → size (replace_flows kind_known compiles limit flows) ≤ clamp limit
  unfolding replace_flows no_flows
  reload_capped limit flows h =
      install_all-size limit flows 0 no_flows h (omega arith) (omega arith)

  install_all-prefix :
      (limit : ℤ) (fs : List (Flow Config)) (i j : ℕ) (s : FlowSet Config)
      → (n : ℕ) × (install_all kind_known compiles limit fs i s
          ≡ install_all kind_known compiles (negsuc 0) (take n fs) j s)
  unfolding install_all
  install_all-prefix limit [] i j s = (0, refl)
  install_all-prefix limit (f ∷ fs) i j s =
      elim (Bool-cases (not (is_minus_one limit) && le_pos limit i)) [
        | inl e ↦ (0, rw e refl)
        | inr e ↦
            let sort = sort_of kind_known compiles f in
            let (n, same) =
              install_all-prefix limit fs (if is_skipped sort then i else suc i)
                (if is_skipped sort then j else suc j) (install sort f s) in
            (suc n, rw e same)
      ]

  -- A reload under any cap is the unrestricted reload of some number of the first flows.
  pub reload_prefix :
      (limit : ℤ) (flows : List (Flow Config))
      → (n : ℕ) × (replace_flows kind_known compiles limit flows
          ≡ replace_flows kind_known compiles (negsuc 0) (take n flows))
  unfolding replace_flows
  reload_prefix limit flows = install_all-prefix limit flows 0 0 no_flows
