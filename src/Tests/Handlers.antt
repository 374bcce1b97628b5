-- ===== src/Tests/Handlers.antt =====
-- Events other than NEW.
use osmud.Prelude.{◌≡◌, ◌≢◌, some, [], ◌++◌, ok}
use osmud.CString.{codes}
use osmud.DhcpEvent.{DhcpEvent, del_action, new_action}
use osmud.MudManager.{Counters, execute_open_mud_dhcp_action}
use osmud.MudManager.Handlers.{
  counted, plain_effects, execute_open_mud_dhcp_action_plain, execute_open_mud_dhcp_action-counted,
}
use osmud.Tests.Samples.{blank_event, calm, globals, json_c}

abbrev leaving : DhcpEvent
leaving = record blank_event {
  action = del_action;
  ip_address = some (codes "10.0.0.7");
  mac_address = some (codes "c8:e0:eb:19:01:8d");
}

abbrev counters : Counters
counters = record { new_events = 3; old_events = 0; delete_events = 4; error_events = 1 }

is_del : leaving.action ≢ new_action
is_del = λ e. cc

execute_open_mud_dhcp_action_plain_run :
    execute_open_mud_dhcp_action calm json_c globals counters leaving []
    ≡ ok (
      (counted del_action counters, leaving),
      plain_effects calm json_c globals del_action leaving ++ [],
    )
execute_open_mud_dhcp_action_plain_run =
    execute_open_mud_dhcp_action_plain calm json_c globals counters leaving [] is_del

execute_open_mud_dhcp_action-counted_example :
    record counters { delete_events = 5 } ≡ counted del_action counters
execute_open_mud_dhcp_action-counted_example =
    execute_open_mud_dhcp_action-counted calm json_c globals counters leaving []
      (execute_open_mud_dhcp_action_plain calm json_c globals counters leaving [] is_del)
