-- ===== src/Lifecycle/Ending.antt =====
-- Recovery, adoption and the proof of a candidate end (agent/src/main.rs).
use carbide_os.Prelude.{◌^◌, ◌+◌, ◌<◌, Option, none, some, List, arith}
use carbide_os.Text.{Text}
use carbide_os.Host.{Host, FilePath, Result, ok, err}
use carbide_os.Effects.Total.{
  Total, Yields, OnOk, total_rules, Total-bind, Total-then, Total-on_error, Total-map_err,
  Total-get_host, Total-moment, Total-lift, Yields-attempt, Yields-bind, Yields-get_host,
  Total-of_Yields,
}
use carbide_os.Files.Total.{Total-exists}
use carbide_os.Config.{Ruleset, ConfigError, or_malformed, load_ruleset, load_named}
use carbide_os.Config.Bounds.{IsBounded, Fine, parse_ruleset-Fine}
use carbide_os.System.Total.{
  Total-store, Total-stop_unit, Total-install_active, Total-sysext_refresh, Total-daemon_reload,
  Total-prune_candidates, Total-prune_rollbacks,
}
use carbide_os.System.Units.{seconds, wait_until_ready, probe, probe_with, soak}
use carbide_os.System.Units.Waiting.{IsSteady, run_probe-ends}
use carbide_os.System.Units.Soaking.{soak-ends}
use carbide_os.System.Units.Ready.{wait_until_ready-ends}
use carbide_os.Lifecycle.Recover.{
  fail, terminal, healthy_now, stop_declared, prove_restored, restore, recover_onto, recover_from,
  recover,
}

-- More fuel than the longest duration that a ruleset can have, in nanoseconds.
abbrev pub IsFueled : Host → Type 0
IsFueled h = seconds (2 ^ 64) + 1 < h.fuel

module _ {h : Host} where
  Yields-or_malformed :
      (p : FilePath) (x : Result Text Ruleset)
      → Fine IsBounded x
      → Yields h IsBounded (or_malformed p x)
  Yields-or_malformed p (ok r) q = record { at = λ w. q }
  Yields-or_malformed p (err e) q = record { at = λ w. tt }

  -- A ruleset that was loaded is bounded.
  pub Yields-load_named : (name : Text) → Yields h IsBounded (load_named name)
  unfolding load_named load_ruleset
  Yields-load_named name = Yields-bind Total-moment λ t. Yields-bind (Total-get_host _) λ answer.
      Yields-bind (Total-map_err _ (Total-lift answer))
        λ contents. Yields-get_host _ _ (Yields-or_malformed _ _ (parse_ruleset-Fine h contents))

  pub Total-load_named : (name : Text) → Total h (load_named name)
  Total-load_named name = Total-of_Yields (Yields-load_named name)

  pub Total-fail : {E : Type 0} (name reason : Text) → Total {E = E} h (fail name reason)
  unfolding fail
  Total-fail name reason = search (total_rules)

  Total-terminal : (name reason : Text) → Total h (terminal name reason)
  unfolding terminal
  Total-terminal name reason = search (total_rules, Total-fail, Total-store)

  Total-stop_declared : (x : Result ConfigError Ruleset) → Total h (stop_declared x)
  Total-stop_declared (ok r) = search (total_rules, Total-stop_unit)
  Total-stop_declared (err e) = search (total_rules)

module _ {h : Host} (steady : IsSteady h) (fueled : IsFueled h) where
  module _ (r : Ruleset) (p : IsBounded r) where
    pub Total-wait_until_ready : Total h (wait_until_ready r)
    Total-wait_until_ready = record {
      at = λ w. wait_until_ready-ends h r w steady (omega (arith, fueled, p.ready_timeout));
    }

    Total-probe_with : (command : Option (List Text)) → Total h (probe_with r command)
    Total-probe_with none = search (total_rules)
    Total-probe_with (some command) = record {
      at = λ w. run_probe-ends h r w steady (omega (arith, fueled, p.health_timeout));
    }

    Total-probe : Total h (probe r)
    unfolding probe
    Total-probe = Total-probe_with r.health_command

    pub Total-soak : Total h (soak r)
    Total-soak = record {
      at = λ w.
          soak-ends h r w steady (omega (arith, fueled, p.soak))
            (omega (arith, fueled, p.health_timeout));
    }

    pub Total-healthy_now : Total h (healthy_now r)
    unfolding healthy_now
    Total-healthy_now = Total-bind Total-wait_until_ready (λ _. Total-probe)

  Total-prove_restored :
      (name reason version : Text) (x : Result ConfigError Ruleset)
      → OnOk IsBounded x
      → Total h (prove_restored name reason version x)
  Total-prove_restored name reason version (err e) p = Total-terminal name _
  Total-prove_restored name reason version (ok r) p =
      Total-on_error (Total-healthy_now r p) (λ e. Total-terminal name _)

  Total-restore :
      (name reason version : Text) (image : FilePath) → Total h (restore name reason version image)
  unfolding restore
  Total-restore name reason version image =
      Total-bind (Total-on_error (Total-install_active image name) (λ e. Total-terminal name _))
        λ _. Total-bind (Total-on_error Total-sysext_refresh (λ e. Total-terminal name _)) λ _.
          Total-bind (Total-on_error Total-daemon_reload (λ e. Total-terminal name _)) λ _.
            Total-then (Yields-attempt (Yields-load_named name))
              (Total-prove_restored name reason version)

  Total-recover_onto :
      (name reason version : Text) (image : FilePath)
      → Total h (recover_onto name reason version image)
  unfolding recover_onto
  Total-recover_onto name reason version image =
      search
        (
          total_rules, Total-store, Total-load_named, Total-stop_declared, Total-restore,
          Total-prune_candidates, Total-prune_rollbacks,
        )
        depth 30

  Total-recover_from :
      (name reason : Text) (known : Option Text) → Total h (recover_from name reason known)
  Total-recover_from name reason none = Total-terminal name _
  Total-recover_from name reason (some version) =
      search (total_rules, Total-exists, Total-recover_onto, Total-terminal)

  pub Total-recover : (name reason : Text) → Total h (recover name reason)
  unfolding recover
  Total-recover name reason = search (total_rules, Total-recover_from)
