-- ===== src/Tests/Journey.antt =====
-- A few commands at concrete data.
use wg_manager.Base.{Text, lit, ◌==◌, ◌&&◌}
use wg_manager.Service.{menu_uninstall}
use wg_manager.Service.Chosen.{
  IsChosen, chosen, is_choice, set_of, actions_of, menu_uninstall-IsChosen,
}
use wg_manager.Base.{true, some, List, [], ◌∷◌, ◌≡◌, refl, arith, text_eq, text_beq}
use wg_manager.Store.{
  Peer, Table, clashes, get_peer, find_user, insert_peer, update_peer, update_rows, delete_peer,
  delete_rows,
}
use wg_manager.Store.Map.{
  Write, add, change, remove, run_write, run_writes, Register, Matches, map_writes,
  run_writes-Matches,
}
use wg_manager.Users.{World}
use wg_manager.Users.Cli.{cmd_remove}
use wg_manager.Users.Ghosts.{ghosts_command}
use wg_manager.Users.Lifecycle.{IsSound, AreApart}
use wg_manager.Migration.{
  exported, overwritten, migration_from_db, update_unique, import_peer, import_peers,
  import_migration,
}
use wg_manager.Users.Lifecycle.Reach.{
  Moment, reconcile, Reach, here, next, import_users, cli_remove, ghosts, tick,
}
use wg_manager.Users.Lifecycle.Sound.{Reach-IsSound}
use wg_manager.Tests.Memory.{memory, no_sets}
use wg_manager.Tests.Commands.{user, no_config, two, two-IsValid, server, one_day, counting, before}

abbrev moment : Moment counting one_day memory
moment = record {
  now = 5;
  server = server;
  readings = record { ipset = b'B' ∷ []; transfer = []; ovpn = [] };
  rules = no_sets;
}

two-IsSound : IsSound two
two-IsSound = record { valid = two-IsValid; apart = ground arith }

-- Both users are imported again, the first is removed, then the second as a ghost, and a pass
-- follows.
abbrev restored : World
restored = record before { table = (import_migration (migration_from_db two) two).0 }

restored-AreApart : AreApart restored.table.rows
unfolding import_migration import_peers import_peer update_unique update_rows migration_from_db
    exported overwritten get_peer find_user clashes text_beq
restored-AreApart = ground arith

abbrev removed : World
removed = (cmd_remove counting one_day 5 server ((b'a' ∷ []) ∷ []) restored).0

abbrev cleaned : World
cleaned = record removed { table = ghosts_command true removed.table }

journey : Reach counting one_day memory before (reconcile counting one_day memory moment cleaned)
journey =
    next
      (next
        (next (next here (import_users (migration_from_db two) restored-AreApart))
          (cli_remove moment ((b'a' ∷ []) ∷ [])))
        (ghosts true))
      (tick moment)

Reach-IsSound_example : IsSound (reconcile counting one_day memory moment cleaned).table
Reach-IsSound_example = Reach-IsSound counting one_day memory journey two-IsSound

abbrev newcomer : Peer
newcomer = user 0 (b'c' ∷ []) [] []

abbrev written : Table
written = record {
  rows = record (user 2 (b'b' ∷ []) [] []) { blocked = true } ∷ user 3 (b'c' ∷ []) [] [] ∷ [];
  next_id = 4;
}

-- A third user is added, the second is blocked, and the first is removed.
abbrev writes : List Write
writes =
    add newcomer ∷ change (b'b' ∷ []) (λ p. record p { blocked = true }) ∷ remove (b'a' ∷ []) ∷ []

writes_done : run_writes writes two ≡ some written
unfolding run_writes run_write insert_peer clashes update_peer update_rows delete_peer delete_rows
    get_peer find_user text_beq
writes_done = refl

abbrev register : Register
register = record { next = 3; at = get_peer two }

run_writes-Matches_example : Matches written (map_writes writes register)
run_writes-Matches_example =
    run_writes-Matches writes two written register (tt, ((λ p. (refl, refl, refl, refl)), (tt, tt)))
      two-IsValid record { next = refl; at = λ name. refl } writes_done

abbrev choice : Text
unfolding lit
choice = lit "3"

menu_uninstall-IsChosen_example :
    IsChosen
      (lit "UNINSTALL" == lit "UNINSTALL" && is_choice choice)
      (chosen choice)
      (set_of no_config)
      no_config
      (actions_of (menu_uninstall choice (lit "UNINSTALL") no_config))
menu_uninstall-IsChosen_example = menu_uninstall-IsChosen choice (lit "UNINSTALL") no_config
