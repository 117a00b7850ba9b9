-- ===== src/Users/Lifecycle/Reach.antt =====
-- Handlers, commands and enforcement passes in any order.
use wg_manager.Base.{Bool, List}
use wg_manager.Base.{Text, Dict}
use wg_manager.Base.{◌≡◌}
use wg_manager.Migration.{MigrationPeer, import_migration}
use wg_manager.WgConf.Import.{Legacy, Section, flush}
use wg_manager.Users.Lifecycle.{AreApart}
use wg_manager.Store.{Peer, Table}
use wg_manager.Enforce.{Clock}
use wg_manager.Enforce.Firewall.{Firewall}
use wg_manager.Enforce.Tick.{Readings, enforce_tick}
use wg_manager.Recharge.{Floats, Json, Result, ok, ResetCounters}
use wg_manager.Settings.{Config}
use wg_manager.Users.{World}
use wg_manager.Users.Panel.{
  Server, create_peer, delete_user, renew, set_quota_user, enable_user, recharge_user, ovpn_add,
  ovpn_remove,
}
use wg_manager.Users.Cli.{
  cmd_add, cmd_remove, set_field, cli_set_quota, cli_renew, cli_enable, cli_recharge_field,
  cmd_ovpn_add, cmd_ovpn_rm, cmd_render,
}
use wg_manager.Users.Ghosts.{ghosts_command}

module _ (fl : Floats) (c : Clock) (fw : Firewall) where
  -- When a command runs: the time, the server around it, and what a pass that follows reads.
  pub record Moment : Type 0 where
    pub now : c.Time
    pub server : Server
    pub readings : Readings
    pub rules : fw.State

  -- `reconcileNow` after a change: one enforcement pass.
  unfoldable pub reconcile : Moment → World → World
  reconcile m w = record w { table = (enforce_tick c fw m.readings m.now (w.table, m.rules)).0 }

  -- One request, command or pass, as far as it writes the table. What follows an import in its
  -- handler is `rewrite` and `tick`.
  pub data Step (w : World) : World → Type 0 where
    create :
        (m : Moment) (b : Dict (Json fl.Float))
        → Step w (create_peer fl c m.now m.server (reconcile m) b w).0
    delete :
        (m : Moment) (name : Text) → Step w (delete_user fl c m.now m.server (reconcile m) name w).0
    renewal :
        (m : Moment) (name : Text) (b : Dict (Json fl.Float))
        → Step w (renew fl c m.now m.server (reconcile m) name b w).0
    quota :
        (m : Moment) (name : Text) (b : Dict (Json fl.Float))
        → Step w (set_quota_user fl c m.now m.server (reconcile m) name b w).0
    enable :
        (m : Moment) (on : Bool) (name : Text)
        → Step w (enable_user fl c m.now m.server (reconcile m) on name w).0
    recharge :
        (m : Moment) (commits : Bool) (snapshot : Peer → Result ResetCounters) (name : Text)
        (b : Dict (Json fl.Float))
        → Step w (recharge_user fl c m.now m.server (reconcile m) commits snapshot name b w).0
    attach :
        (m : Moment) (name : Text) → Step w (ovpn_add fl c m.now m.server (reconcile m) name w).0
    detach :
        (m : Moment) (name : Text) → Step w (ovpn_remove fl c m.now m.server (reconcile m) name w).0
    cli_add : (m : Moment) (args : List Text) → Step w (cmd_add fl c m.now m.server args w).0
    cli_remove : (m : Moment) (args : List Text) → Step w (cmd_remove fl c m.now m.server args w).0
    cli_quota :
        (m : Moment) (args : List Text)
        → Step w (set_field fl c m.now m.server (cli_set_quota fl c m.now m.server) args w).0
    cli_renewal :
        (m : Moment) (args : List Text)
        → Step w (set_field fl c m.now m.server (cli_renew fl c m.now m.server) args w).0
    cli_switch :
        (m : Moment) (on : Bool) (args : List Text)
        → Step w (set_field fl c m.now m.server (cli_enable fl c m.now m.server on) args w).0
    cli_refill :
        (m : Moment) (args : List Text)
        → Step w (set_field fl c m.now m.server (cli_recharge_field fl c m.now m.server) args w).0
    cli_attach :
        (m : Moment) (args : List Text) → Step w (cmd_ovpn_add fl c m.now m.server args w).0
    cli_detach : (m : Moment) (args : List Text) → Step w (cmd_ovpn_rm fl c m.now m.server args w).0
    rewrite : (cfg : Config) → Step w (cmd_render cfg w).0
    ghosts : (on : Bool) → Step w (record w { table = ghosts_command on w.table })
    -- `importMigration`, for the panel, for a bundle and for the command line; the rows that it leaves
    -- give no two users one OpenVPN address.
    import_users :
        (ms : List MigrationPeer)
        → AreApart (import_migration ms w.table).0.rows
        → Step w (record w { table = (import_migration ms w.table).0 })
    -- One section of the file that `cmdImport` reads.
    import_section :
        (legacy : Dict Legacy) (s : Section) (t : Table)
        → flush legacy s w.table ≡ ok t
        → Step w (record w { table = t })
    tick : (m : Moment) → Step w (reconcile m w)

  pub data Reach (w : World) : World → Type 0 where
    here : Reach w w
    next : {v u : World} → Reach w v → Step v u → Reach w u
