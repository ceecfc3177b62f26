-- ===== src/Node/Browser/Client.antt =====
-- When the start of a light node in a browser gives a client (node/cli/src/browser.rs).
use ipci_blockchain.Prelude.{◌≡◌, ◌↔◌, refl, sym, ap, Option, none, some, List}
use ipci_blockchain.Text.{Text, Result, ok, err, map_err}
use ipci_blockchain.Node.Service.{Configuration}
use ipci_blockchain.Node.Service.Steps.{Ended, completed}
use ipci_blockchain.Node.Service.Completed.{Succeeds, new_light_base-completed_iff}
use ipci_blockchain.Node.Service.Plan.{light_plan}
use ipci_blockchain.Node.Browser.{
  Browser, Run, Fault, chain, try, returned, chain_spec_of, ended, start_inner, start,
}

-- A chain returns a value exactly when both of its parts do.
module _ {A Error B C : Type 0} where
  chain-ok :
      (r : Result (Fault Error) B) (made : List A) (f : B → Run A Error C) (c : C)
      → (chain r made f).0 ≡ ok c
      → (b : B) × (r ≡ ok b) × ((f b).0 ≡ ok c)
  chain-ok (ok b) made f c h = (b, refl, h)
  chain-ok (err e) made f c h = cc h

try-ok : {Error B : Type 0} (r : Result Error B) (b : B) → try r ≡ ok b → r ≡ ok b
try-ok (ok a) b h = cc h
try-ok (err e) b h = cc h

returned-ok : {Error : Type 0} (o : Option Error) (u : Unit {0}) → returned o ≡ ok u → o ≡ none
returned-ok none u h = refl
returned-ok (some e) u h = cc h

map_err-ok : {E F A : Type 0} (f : E → F) (r : Result E A) (a : A) → map_err f r ≡ ok a → r ≡ ok a
map_err-ok f (ok x) a h = cc h
map_err-ok f (err e) a h = cc h

module _ {Level Spec SpecError Error Address ServiceError : Type 0}
    (b : Browser Level Spec SpecError Error Address ServiceError) where
  -- the specification that the text on the page stands for
  abbrev pub Specifies : Option Text → Spec → Type 0
  Specifies none spec = spec ≡ b.development_config
  Specifies (some s) spec = b.from_json_bytes s ≡ ok spec

  -- Nothing fails: the level is read and the logger starts, there are a specification and its
  -- configuration, and no call of a light node's assembly fails.
  pub record Succeeded (chain_spec : Option Text) (log_level : Text) : Type 0 where
    pub level : Level
    pub reads_level : b.level_from_str log_level ≡ ok level
    pub starts_logger : b.init_console_log_fails level ≡ none
    pub spec : Spec
    pub specifies : Specifies chain_spec spec
    pub config : Configuration Address
    pub configures : b.configuration spec ≡ ok config
    pub assembles : Succeeds b.fails (light_plan config)

  ended-ok : (end : Ended ServiceError) (u : Unit {0}) → ended b end ≡ ok u → end ≡ completed
  ended-ok Ended.completed u h = refl
  ended-ok (Ended.failed e) u h = cc h
  ended-ok Ended.panicked u h = cc h

  chain_spec_of-Specifies :
      (s : Option Text) (spec : Spec) → chain_spec_of b s ≡ ok spec → Specifies s spec
  unfolding chain_spec_of
  chain_spec_of-Specifies none spec h = cc h
  chain_spec_of-Specifies (some s) spec h = map_err-ok _ _ spec h

  chain_spec_of-ok :
      (s : Option Text) (spec : Spec) → Specifies s spec → chain_spec_of b s ≡ ok spec
  unfolding chain_spec_of
  chain_spec_of-ok none spec h = ap ok (sym h)
  chain_spec_of-ok (some s) spec h = rw h

  start_inner-Succeeded :
      (s : Option Text) (l : Text) → (start_inner b s l).0 ≡ ok tt → Succeeded s l
  unfolding start_inner
  start_inner-Succeeded s l h =
      let (level, read, h1) = chain-ok _ _ _ _ h in
      let (u, logs, h2) = chain-ok _ _ _ _ h1 in
      let (spec, found, h3) = chain-ok _ _ _ _ h2 in
      let (config, configured, h4) = chain-ok _ _ _ _ h3 in
      let (v, assembled, h5) = chain-ok _ _ _ _ h4 in
      record {
        level = level;
        reads_level = try-ok _ level read;
        starts_logger = returned-ok _ u logs;
        spec = spec;
        specifies = chain_spec_of-Specifies s spec (try-ok _ spec found);
        config = config;
        configures = try-ok _ config configured;
        assembles = (new_light_base-completed_iff config b.fails).0 (ended-ok _ v assembled);
      }

  start_inner-ok : (s : Option Text) (l : Text) → Succeeded s l → (start_inner b s l).0 ≡ ok tt
  unfolding start_inner
  start_inner-ok s l h = rw (
    h.reads_level,
    h.starts_logger,
    chain_spec_of-ok s h.spec h.specifies,
    h.configures,
    (new_light_base-completed_iff h.config b.fails).1 h.assembles,
  )

  -- `start_client` gives a client exactly when nothing fails: the log level can be read and the logger
  -- starts, there is a specification, which is the development chain's where none is given, and its
  -- configuration, and no call of a light node's assembly fails.
  pub start-ok_iff :
      (chain_spec : Option Text) (log_level : Text)
      → ((start b chain_spec log_level).0 ≡ ok tt) ↔ Succeeded chain_spec log_level
  unfolding start
  start-ok_iff s l =
      (λ h. start_inner-Succeeded s l (map_err-ok _ _ tt h), λ h. rw (start_inner-ok s l h))
