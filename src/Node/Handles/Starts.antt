-- ===== src/Node/Handles/Starts.antt =====
-- Which services the calls that node/cli/src/service.rs makes for a full node start.
use mathlib.Core.Bool.{or-false, not-not}
use ipci_blockchain.Prelude.{Bool, true, false, not, ◌||◌, List, [], ◌∷◌, ◌++◌, ◌≡◌, ap₂, ◌∙◌}
use ipci_blockchain.Node.Service.{Role, authority}
use ipci_blockchain.Node.Service.Started.{any, any-append}
use ipci_blockchain.Node.Handles.{Handles}
use ipci_blockchain.Node.Handles.Calls.{Call}

pub record Services : Type 0 where
  pub proposer : Bool
  pub discovery : Bool
  pub voter : Bool
  -- the stand-in for the voter
  pub disabled : Bool
  pub offchain : Bool
  pub network : Bool

abbrev pub nothing : Services
nothing = record {
  proposer = false;
  discovery = false;
  voter = false;
  disabled = false;
  offchain = false;
  network = false;
}

abbrev pub both : Services → Services → Services
both a b = record {
  proposer = a.proposer || b.proposer;
  discovery = a.discovery || b.discovery;
  voter = a.voter || b.voter;
  disabled = a.disabled || b.disabled;
  offchain = a.offchain || b.offchain;
  network = a.network || b.network;
}

abbrev pub is_authority_role : {Address : Type 0} → Role Address → Bool
is_authority_role (authority sentry_nodes) = true
is_authority_role _ = false

module _ {H : Handles} where
  abbrev proposes : Call H → Bool
  proposes (Call.start_babe q task) = true
  proposes _ = false

  abbrev discovers_peers : Call H → Bool
  discovers_peers (Call.new_discovery_worker client network sentries events role registry task) =
      true
  discovers_peers _ = false

  abbrev votes : Call H → Bool
  votes (Call.run_grandpa_voter q task) = true
  votes _ = false

  abbrev disables_grandpa : Call H → Bool
  disables_grandpa (Call.setup_disabled_grandpa client providers network) = true
  disables_grandpa _ = false

  abbrev works_offchain : Call H → Bool
  works_offchain (Call.build_offchain_workers c backend task_manager client network) = true
  works_offchain _ = false

  abbrev starts_network : Call H → Bool
  starts_network (Call.start_network starter) = true
  starts_network _ = false

  -- The calls start these services and no other.
  abbrev pub Starts : Services → List (Call H) → Type 0
  Starts s made =
      (any proposes made ≡ s.proposer)
      × (any discovers_peers made ≡ s.discovery)
      × (any votes made ≡ s.voter)
      × (any disables_grandpa made ≡ s.disabled)
      × (any works_offchain made ≡ s.offchain)
      × (any starts_network made ≡ s.network)

  any_of_both :
      (t : Call H → Bool) (xs ys : List (Call H)) (a b : Bool)
      → any t xs ≡ a
      → any t ys ≡ b
      → any t (xs ++ ys) ≡ (a || b)
  any_of_both t xs ys a b h k = any-append t xs ys ∙ ap₂ (λ x y. x || y) h k

  pub Starts-append :
      (a b : Services) (xs ys : List (Call H))
      → Starts a xs
      → Starts b ys
      → Starts (both a b) (xs ++ ys)
  Starts-append a b xs ys (h₀, h₁, h₂, h₃, h₄, h₅) (k₀, k₁, k₂, k₃, k₄, k₅) = (
    any_of_both _ xs ys _ _ h₀ k₀,
    any_of_both _ xs ys _ _ h₁ k₁,
    any_of_both _ xs ys _ _ h₂ k₂,
    any_of_both _ xs ys _ _ h₃ k₃,
    any_of_both _ xs ys _ _ h₄ k₄,
    any_of_both _ xs ys _ _ h₅ k₅,
  )

  -- the services of a full node, gathered from those of its parts
  services-Starts :
      (authors finds disable workers : Bool) (made : List (Call H))
      → Starts
          (both nothing (
            both nothing (
              both
                (record nothing { offchain = workers })
                (both nothing (
                  both nothing (
                    both
                      (record nothing { proposer = authors })
                      (both
                        (record nothing { discovery = finds })
                        (both
                          (record nothing { voter = not disable; disabled = not (not disable) })
                          (record nothing { network = true })))))))))
          made
      → Starts
          (record {
            proposer = authors;
            discovery = finds;
            voter = not disable;
            disabled = disable;
            offchain = workers;
            network = true;
          })
          made
  services-Starts authors finds disable workers made (p, d, v, s, o, n) = (
    p ∙ or-false authors,
    d ∙ or-false finds,
    v ∙ or-false (not disable),
    s ∙ or-false (not (not disable)) ∙ not-not disable,
    o ∙ or-false workers,
    n,
  )

  -- the calls of the parts of a full node, with those between them
  pub full-Starts :
      (authors finds disable workers : Bool) (b t n : Call H) (mp mw ms ma md mv : List (Call H))
      → Starts nothing (b ∷ [])
      → Starts nothing (t ∷ [])
      → Starts (record nothing { network = true }) (n ∷ [])
      → Starts nothing mp
      → Starts (record nothing { offchain = workers }) mw
      → Starts nothing ms
      → Starts (record nothing { proposer = authors }) ma
      → Starts (record nothing { discovery = finds }) md
      → Starts (record nothing { voter = not disable; disabled = not (not disable) }) mv
      → Starts
          (record {
            proposer = authors;
            discovery = finds;
            voter = not disable;
            disabled = disable;
            offchain = workers;
            network = true;
          })
          (mp ++ (b ∷ (mw ++ (t ∷ (ms ++ (ma ++ (md ++ (mv ++ n ∷ []))))))))
  full-Starts authors finds disable workers b t n mp mw ms ma md mv hb ht hn hp hw hs ha hd hv =
      let lv : List (Call H) = mv ++ n ∷ [] in
      let ld : List (Call H) = md ++ lv in
      let la : List (Call H) = ma ++ ld in
      let ls : List (Call H) = ms ++ la in
      let lw : List (Call H) = mw ++ (t ∷ ls) in
      let voted = Starts-append _ _ mv (n ∷ []) hv hn in
      let found = Starts-append _ _ md lv hd voted in
      let authored = Starts-append _ _ ma ld ha found in
      let tasks = Starts-append _ _ (t ∷ []) ls ht (Starts-append _ _ ms la hs authored) in
      let worked = Starts-append _ _ mw (t ∷ ls) hw tasks in
      services-Starts authors finds disable workers (mp ++ (b ∷ lw))
        (Starts-append _ _ mp (b ∷ lw) hp (Starts-append _ _ (b ∷ []) lw hb worked))
