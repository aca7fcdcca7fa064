-- ===== src/Providers/Hetzner/Draining.antt =====
-- pkg/cloudprovider/provider/hetzner/provider.go: Cleanup, called again until it is done, as the
-- controller calls it.
use machine_controller.Base.{
  concat, nat_eq, Bool-cases, Option-cases, length, keep, ℕ, zero, suc, ◌≤◌, ◌<◌, String, ◌≡◌, refl,
  ap, ◌∙◌, inl, inr, Bool, true, false, not, none, some, List, [], ◌∷◌, arith,
}
use machine_controller.Outcome.{instance_not_found, Outcome, ok, err, ◌>>=◌}
use machine_controller.Kube.{Machine}
use machine_controller.Providers.Common.{MachineConfig, machine_config, first_that}
use machine_controller.Providers.Hetzner.{
  machine_uid_label_key, Config, Server, Request, list_servers, delete_server, Cloud, has_uid,
  get_config,
}
use machine_controller.Providers.Hetzner.Instances.{get, delete, remove_found, cleanup}

-- The servers that are left after the requests that were made.
unfoldable pub live : List Server → List Request → List Server
live servers [] = servers
live servers (delete_server _ x ∷ s) = keep (λ y. not (nat_eq y.id x.id)) (live servers s)
live servers (_ ∷ s) = live servers s

-- An API that deletes what it is asked to delete, for a machine with a configuration that resolves.
pub record IsObliging (c : Cloud) (servers : List Server) (m : Machine) (config : Config)
    : Type 0 where
  pub servers_live :
      (s : List Request) (selector : String) → c.servers s selector ≡ ok (live servers s)
  pub deleted_server_ok : (s : List Request) (x : Server) → c.deleted_server s x ≡ ok 200
  pub pconfig : MachineConfig
  pub config_resolves :
      (s : List Request)
      → machine_config c.decoder (get_config c m.spec.provider_spec) s ≡ (ok (config, pconfig), s)

-- The controller comes back until the cleanup is done.
abbrev pub unless_done :
    (List Request → Bool × List Request) → Outcome Bool × List Request → Bool × List Request
unless_done again (ok true, s) = (true, s)
unless_done again (_, s) = again s

unfoldable pub rounds : Cloud → ℕ → Machine → List Request → Bool × List Request
rounds c zero m s = (false, s)
rounds c (suc n) m s = unless_done (rounds c n m) (cleanup c m s)

abbrev pub tagged : String → List Server → ℕ
tagged uid servers = length (keep (has_uid uid) servers)

-- A list without a server that had the UID has fewer with the UID.
fewer_or_equal :
    (uid : String) (id : ℕ) (servers : List Server)
    → tagged uid (keep (λ y. not (nat_eq y.id id)) servers) ≤ tagged uid servers
fewer_or_equal uid id [] = omega arith
fewer_or_equal uid id (y ∷ ys) = ground (arith, fewer_or_equal uid id ys)

fewer_tagged :
    (uid : String) (servers : List Server) (x : Server)
    → first_that (has_uid uid) servers ≡ some x
    → tagged uid (keep (λ y. not (nat_eq y.id x.id)) servers) < tagged uid servers
unfolding first_that
fewer_tagged uid [] x e = absurd (ground (arith, e))
fewer_tagged uid (y ∷ ys) x e = elim (Bool-cases (has_uid uid y)) [
  | inl k ↦ ground (arith, k, e, fewer_or_equal uid x.id ys)
  | inr k ↦ ground (arith, k, fewer_tagged uid ys x (ground (arith, k, e)))
]

module _ {c : Cloud} {servers : List Server} {m : Machine} {config : Config}
    (h : IsObliging c servers m config) where
  abbrev listed : List Request → List Request
  listed s = list_servers config.token (concat machine_uid_label_key (concat "==" m.uid)) ∷ s

  get_none :
      (s : List Request)
      → first_that (has_uid m.uid) (live servers s) ≡ none
      → get c m s ≡ (err instance_not_found, listed s)
  unfolding get ◌>>=◌
  get_none s e = rw (h.config_resolves s, h.servers_live s _, e) refl

  get_some :
      (s : List Request) (x : Server)
      → first_that (has_uid m.uid) (live servers s) ≡ some x
      → get c m s ≡ (ok x, listed s)
  unfolding get ◌>>=◌
  get_some s x e = rw (h.config_resolves s, h.servers_live s _, e) refl

  removes :
      (x : Server) (s : List Request)
      → remove_found c m x s ≡ (ok false, delete_server config.token x ∷ s)
  unfolding remove_found delete ◌>>=◌
  removes x s = rw (h.config_resolves s, h.deleted_server_ok s x) refl

  -- One call: it is done if no server is left, and else deletes one.
  cleanup_none :
      (s : List Request)
      → first_that (has_uid m.uid) (live servers s) ≡ none
      → cleanup c m s ≡ (ok true, listed s)
  unfolding cleanup ◌>>=◌
  cleanup_none s e = rw (get_none s e) refl

  cleanup_some :
      (s : List Request) (x : Server)
      → first_that (has_uid m.uid) (live servers s) ≡ some x
      → cleanup c m s ≡ (ok false, delete_server config.token x ∷ listed s)
  unfolding cleanup ◌>>=◌
  cleanup_some s x e = rw (get_some s x e) (removes x (listed s))

  -- With an API that deletes what it is asked to delete, cleanups come to an end: after more rounds
  -- than there are servers with the machine's UID, one of them has reported that it is done.
  pub rounds-finish :
      (n : ℕ) (s : List Request) → tagged m.uid (live servers s) < n → (rounds c n m s).0 ≡ true
  unfolding rounds live
  rounds-finish zero s few = absurd (omega arith)
  rounds-finish (suc n) s few = elim (Option-cases (first_that (has_uid m.uid) (live servers s))) [
    | inl e ↦ ap (λ o. (unless_done (rounds c n m) o).0) (cleanup_none s e)
    | inr (x, e) ↦
        ap (λ o. (unless_done (rounds c n m) o).0) (cleanup_some s x e)
        ∙ rounds-finish n (delete_server config.token x ∷ listed s)
            (omega (arith, few, fewer_tagged m.uid (live servers s) x e))
  ]
