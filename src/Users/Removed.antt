-- ===== src/Users/Removed.antt =====
-- What the removal of a user leaves (`deletePeer` in api.go, `cmdRemove` in main.go).
use wg_manager.Base.{Bool, ◌≡◌, arith}
use wg_manager.Base.{Text, text_eq, nat_eq}
use wg_manager.Settings.{Config}
use wg_manager.Users.{World, render, remove_ccd}

pub render-table :
    (cfg : Config) (force : Bool) (w : World) → (render cfg force w).0.table ≡ w.table
unfolding render
render-table cfg force w = ground arith

pub remove_ccd-same_table :
    (cfg : Config) (name : Text) (w : World) → (remove_ccd cfg name w).table ≡ w.table
unfolding remove_ccd
remove_ccd-same_table cfg name w = ground arith
