-- ===== src/Node/Handles/Parts.antt =====
-- The calls that the parts of the assembly of a full node make (node/cli/src/service.rs).
use ipci_blockchain.Prelude.{Bool, true, false, not, some, List, [], ◌∷◌, ◌++◌, ◌≡◌, refl}
use ipci_blockchain.Text.{codes}
use ipci_blockchain.Node.Service.{Configuration, Role, authority, sentry, full, light, discovers}
use ipci_blockchain.Node.Handles.{Handles, DiscoveryRole}
use ipci_blockchain.Node.Handles.Calls.{Call, IsKept}
use ipci_blockchain.Node.Handles.Effects.{make, when}
use ipci_blockchain.Node.Handles.Framework.{Framework, FullFramework}
use ipci_blockchain.Node.Handles.Full.{
  author_blocks, discover, discovery_of, vote, config_of_grandpa,
}
use ipci_blockchain.Node.Handles.Kept.{
  Leaves, pure-Leaves, try-Leaves, make-Leaves, try_last-Leaves, make_last-Leaves,
}
use ipci_blockchain.Node.Handles.Partial.{RpcServer, new_partial}
use ipci_blockchain.Node.Handles.Starts.{Services, Starts, nothing, is_authority_role}
use ipci_blockchain.Node.Handles.Wired.{Each, Node, Wired, PartsOf}

pub Each-append :
    {A : Type 0} (P : A → Type 0) (xs ys : List A) → Each P xs → Each P ys → Each P (xs ++ ys)
Each-append P [] ys hx hy = hy
Each-append P (x ∷ xs) ys hx hy = (hx.0, Each-append P xs ys hx.1 hy)

module _ {H : Handles} (w : Framework H) (f : FullFramework H) (config : Configuration H.Address)
    (rpc : RpcServer H) (calls : H.State → List (Call H)) (kept : IsKept H calls w f) where
  pub new_partial-Leaves :
      Leaves calls Call.refused (new_partial w f rpc config) (PartsOf w f config)
  unfolding new_partial
  new_partial-Leaves =
      try-Leaves calls Call.refused _ _ (kept.new_full_parts config)
        (λ (client, backend, keystore, task_manager).
          make-Leaves calls Call.refused _ _ (kept.new_full_pool _ _ _ _) (λ pool.
            try-Leaves calls Call.refused _ _ (kept.grandpa_block_import _ _)
              (λ (grandpa_import, link).
                try-Leaves calls Call.refused _ _ (kept.get_or_compute _) (λ babe_config.
                  try-Leaves calls Call.refused _ _ (kept.babe_block_import _ _ _)
                    (λ (block_import, babe_link).
                      try-Leaves calls Call.refused _ _ (kept.import_queue _) (λ queue.
                        pure-Leaves calls Call.refused _ (
                          grandpa_import,
                          babe_config,
                          (refl, refl, refl, refl),
                          (refl, refl, refl, refl, refl, refl),
                          λ network. (
                            (refl, refl),
                            (
                              (refl, refl, refl, refl),
                              (
                                (refl, refl, refl),
                                (
                                  (refl, refl),
                                  (
                                    (refl, refl, refl, refl),
                                    (
                                      (refl, refl, refl, refl, refl, refl, refl, refl, refl, refl),
                                      tt,
                                    ),
                                  ),
                                ),
                              ),
                            ),
                          ),
                        )))))))

  module _ (x : Node H) where
    -- a part that makes calls of this node
    abbrev pub PartOf : Services → Unit {0} → List (Call H) → Type 0
    PartOf s u made = Each (Wired w f config x) made × Starts s made

    abbrev pub quiet_part : PartOf nothing tt []
    quiet_part = (tt, (refl, refl, refl, refl, refl, refl))

    pub author_blocks-Leaves :
        (role : Role H.Address)
        → Leaves calls Call.refused
            (author_blocks w f config x.parts x.network.network role)
            (PartOf (record nothing { proposer = is_authority_role role }))
    unfolding author_blocks
    author_blocks-Leaves (authority sentry_nodes) =
        try-Leaves calls Call.refused _ _ (kept.start_babe _) (λ babe.
          make_last-Leaves calls Call.refused _
            (λ u. Call.spawn x.parts.task_manager true (codes "babe-proposer") babe)
            (kept.spawn _ _ _ babe)
            (λ u. (
              ((refl, refl, refl, refl, refl, refl, refl, refl, refl, refl), (refl, tt)),
              (refl, refl, refl, refl, refl, refl),
            )))
    author_blocks-Leaves sentry = pure-Leaves calls Call.refused tt quiet_part
    author_blocks-Leaves full = pure-Leaves calls Call.refused tt quiet_part
    author_blocks-Leaves light = pure-Leaves calls Call.refused tt quiet_part

    discover-Leaves :
        (sentries : List H.Address) (role : DiscoveryRole H)
        → discovery_of H config.role x.parts.keystore ≡ some (sentries, role)
        → Leaves calls Call.refused
            (discover w f config x.parts x.network.network (some (sentries, role)))
            (PartOf (record nothing { discovery = true }))
    unfolding discover
    discover-Leaves sentries role is =
        make-Leaves calls Call.refused _ _ (kept.new_discovery_worker _ _ _ _ _ _) (λ worker.
          make_last-Leaves calls Call.refused _
            (λ u. Call.spawn x.parts.task_manager false (codes "authority-discovery-worker") worker)
            (kept.spawn _ _ _ worker)
            (λ u. (((refl, refl, is, refl), (refl, tt)), (refl, refl, refl, refl, refl, refl))))

    -- the `unreachable!` is not reached
    pub discovers-Leaves :
        (role : Role H.Address)
        → discovery_of H config.role x.parts.keystore ≡ discovery_of H role x.parts.keystore
        → Leaves calls Call.refused
            (when (discovers role) (
              discover w f config x.parts x.network.network (discovery_of H role x.parts.keystore)))
            (PartOf (record nothing { discovery = discovers role }))
    unfolding discovers discovery_of when
    discovers-Leaves (authority sentry_nodes) is = discover-Leaves _ _ is
    discovers-Leaves sentry is = discover-Leaves _ _ is
    discovers-Leaves full is = pure-Leaves calls Call.refused tt quiet_part
    discovers-Leaves light is = pure-Leaves calls Call.refused tt quiet_part

    pub vote-Leaves :
        (enabled : Bool)
        → Leaves calls Call.refused
            (vote w f config x.parts x.network.network w.telemetry_connection_sinks enabled)
            (PartOf (record nothing { voter = enabled; disabled = not enabled }))
    unfolding vote config_of_grandpa
    vote-Leaves true = try-Leaves calls Call.refused _ _ (kept.run_grandpa_voter _) (λ voter.
        make_last-Leaves calls Call.refused _
          (λ u. Call.spawn x.parts.task_manager true (codes "grandpa-voter") voter)
          (kept.spawn _ _ _ voter)
          (λ u. (
            ((refl, refl, refl, refl, refl, refl, refl, refl), (refl, tt)),
            (refl, refl, refl, refl, refl, refl),
          )))
    vote-Leaves false =
        try_last-Leaves calls Call.refused _
          (λ u.
            Call.setup_disabled_grandpa x.parts.client x.parts.inherent_data_providers
              x.network.network)
          (kept.setup_disabled_grandpa _ _ _)
          (λ u. (((refl, refl, refl), tt), (refl, refl, refl, refl, refl, refl)))

    pub workers-Leaves :
        (enabled : Bool)
        → Leaves calls Call.refused
            (when enabled (
              make (
                w.build_offchain_workers config x.parts.backend x.parts.task_manager x.parts.client
                  x.network.network)))
            (PartOf (record nothing { offchain = enabled }))
    unfolding when
    workers-Leaves true =
        make_last-Leaves calls Call.refused _
          (λ u.
            Call.build_offchain_workers config x.parts.backend x.parts.task_manager x.parts.client
              x.network.network)
          (kept.build_offchain_workers _ _ _ _ _)
          (λ u. (((refl, refl, refl, refl), tt), (refl, refl, refl, refl, refl, refl)))
    workers-Leaves false = pure-Leaves calls Call.refused tt quiet_part
