-- ===== src/Tests/Registry.antt =====
-- ServerCommonLib/NetLibPlus.cpp.
use lalune_server.Base.{◌≡◌, ◌&&◌, not, ◌||◌, nat_beq}
use mathlib.Core.Option.{none-ne-some}
use lalune_server.Registry.{
  Registry, ServerInfo, empty_registry, update_server_info, remove_server_info,
}
use lalune_server.Registry.Groups.{in_group, IsGrouped, update-in_group}
use lalune_server.Registry.Updates.{update-IsGrouped, remove-IsGrouped}

abbrev gateway : ServerInfo
gateway = record { ip = 1; port = 80; server_type = 3 }

abbrev moved : ServerInfo
moved = record { ip = 1; port = 80; server_type = 4 }

abbrev one_server : Registry
one_server = update_server_info 7 gateway empty_registry

empty_registry-IsGrouped : IsGrouped empty_registry
empty_registry-IsGrouped id info h = absurd (none-ne-some info h)

update-IsGrouped_example : IsGrouped one_server
update-IsGrouped_example = update-IsGrouped 7 gateway empty_registry empty_registry-IsGrouped

remove-IsGrouped_example : IsGrouped (remove_server_info 7 gateway one_server)
remove-IsGrouped_example =
    remove-IsGrouped 7 gateway one_server
      (update-IsGrouped 7 gateway empty_registry empty_registry-IsGrouped)

-- The server 7 has moved to the type 4 and still stands in the group of the type 3.
update-in_group_example :
    in_group 7 3 (update_server_info 7 moved one_server)
    ≡ ((not one_server.is_shut_down && (nat_beq 7 7 && nat_beq 4 3)) || in_group 7 3 one_server)
unfolding update_server_info
update-in_group_example = update-in_group 7 7 3 moved one_server
