-- ===== src/OpenWrt.antt =====
-- src/openwrt/openwrt.c and src/openwrt/openwrt.h: the device interface of OpenWRT. Each operation
-- prints a command line into a buffer of 4096 bytes and runs it with `system`; Scripts has what the
-- scripts that the commands name do.
pub mod Names
use osmud.Prelude.{
  ℕ, Bool, Option, none, some, [], ◌∷◌, ◌++◌, Outcome, ok, fault, null_dereference, if◌then◌else◌,
  ◌==◌,
}
use osmud.Prelude.Int.{is_zero}
use osmud.CString.{Bytes, codes, str_eq, shown, snprintf}
use osmud.Outside.{Env, Exec, Effect, system, append_line, call, open_by, lift, pure, ◌>>=◌}
use osmud.Utils.{strcmpi}

-- `BUFSIZE`
abbrev pub buf_size : ℕ
buf_size = 4096

abbrev pub uci_firewall_script : Bytes
uci_firewall_script = codes "/etc/osmud/create_ip_fw_rule.sh"

abbrev pub uci_firewall_remove_script : Bytes
uci_firewall_remove_script = codes "/etc/osmud/remove_ip_fw_rule.sh"

abbrev pub mud_db_create_script : Bytes
mud_db_create_script = codes "/etc/osmud/create_mud_db_entry.sh"

abbrev pub mud_db_remove_script : Bytes
mud_db_remove_script = codes "/etc/osmud/create_mud_db_entry.sh"

abbrev pub uci_firewall_commit_script : Bytes
uci_firewall_commit_script = codes "/etc/osmud/commit_ip_fw_rules.sh"

abbrev pub uci_firewall_rollback_script : Bytes
uci_firewall_rollback_script = codes "/etc/osmud/rollback_ip_fw_rules.sh"

abbrev pub mud_state_file : Bytes
mud_state_file = codes "mudStateFile.txt"

-- `!strcmpi(a, literal)`
abbrev pub same_ignoring_case : Bytes → Bytes → Bool
same_ignoring_case a b = is_zero (strcmpi a b)

unfoldable pub get_protocol_name : Option Bytes → Bytes
get_protocol_name none = codes "all"
get_protocol_name (some protocol_number) =
    if str_eq protocol_number (codes "all")
    then codes "all"
    else if str_eq protocol_number (codes "6")
    then codes "tcp"
    else if str_eq protocol_number (codes "17")
    then codes "udp"
    else codes "none"

-- `strcmpi` reads through its argument.
unfoldable pub get_action_string : Option Bytes → Outcome Bytes
get_action_string none = fault null_dereference
get_action_string (some mud_action) =
    if same_ignoring_case mud_action (codes "reject")
    then ok (codes "REJECT")
    else if same_ignoring_case mud_action (codes "accept")
    then ok (codes "ACCEPT")
    else ok (codes "DENY")

unfoldable pub get_protocol_family : Option Bytes → Bytes
get_protocol_family none = codes "all"
get_protocol_family (some acl_type) =
    if same_ignoring_case acl_type (codes "all")
    then codes "all"
    else if same_ignoring_case acl_type (codes "ipv6-acl")
    then codes "ipv6"
    else codes "ipv4"

-- the arguments of `installFirewallIPRule`
pub record FirewallRule : Type 0 where
  pub src_ip : Option Bytes
  pub dest_ip : Option Bytes
  pub dest_port : Bytes
  pub src_device : Bytes
  pub dest_device : Bytes
  pub protocol : Option Bytes
  pub rule_name : Option Bytes
  pub fw_action : Option Bytes
  pub acl_type : Option Bytes
  pub host_name : Option Bytes

-- The text that is printed for a rule whose action string is `action`.
unfoldable pub firewall_command : FirewallRule → Bytes → Bytes
unfolding shown
firewall_command r action =
    uci_firewall_script
    ++ (codes " -s "
        ++ (r.src_device
            ++ (codes " -d "
                ++ (r.dest_device
                    ++ (codes " -i "
                        ++ (shown r.src_ip
                            ++ (codes " -a any -j "
                                ++ (shown r.dest_ip
                                    ++ (codes " -b "
                                        ++ (r.dest_port
                                            ++ (codes " -p "
                                                ++ (get_protocol_name r.protocol
                                                    ++ (codes " -n "
                                                        ++ (shown r.rule_name
                                                            ++ (codes " -t "
                                                            ++ (action
                                                            ++ (codes " -f "
                                                            ++ (get_protocol_family r.acl_type
                                                            ++ (codes " -c "
                                                            ++ shown r.host_name)))))))))))))))))))

-- "-" for NULL
unfoldable pub dash_for_null : Option Bytes → Bytes
dash_for_null none = codes "-"
dash_for_null (some s) = s

unfoldable pub remove_rule_command : Option Bytes → Option Bytes → Bytes
unfolding shown
remove_rule_command ip_addr mac_address =
    uci_firewall_remove_script
    ++ (codes " -i " ++ (shown ip_addr ++ (codes " -m " ++ shown mac_address)))

-- the file that the created entries go to
unfoldable pub mud_db_created_file : Bytes → Bytes
mud_db_created_file mud_db_dir = mud_db_dir ++ mud_state_file

-- the file that an entry is to be removed from
unfoldable pub mud_db_removed_file : Bytes → Bytes
mud_db_removed_file mud_db_dir = mud_db_dir ++ (b'/' ∷ mud_state_file)

unfoldable pub create_entry_command :
    Bytes → Option Bytes → Option Bytes → Option Bytes → Option Bytes → Option Bytes → Bytes
unfolding shown dash_for_null mud_db_created_file
create_entry_command mud_db_dir ip_addr mac_address mud_url mud_local_file host_name =
    mud_db_create_script
    ++ (codes " -d "
        ++ (mud_db_created_file mud_db_dir
            ++ (codes " -i "
                ++ (shown ip_addr
                    ++ (codes " -m "
                        ++ (shown mac_address
                            ++ (codes " -c "
                                ++ (dash_for_null host_name
                                    ++ (codes " -u "
                                        ++ (dash_for_null mud_url
                                            ++ (codes " -f "
                                                ++ dash_for_null mud_local_file)))))))))))

unfoldable pub remove_entry_command : Bytes → Option Bytes → Option Bytes → Bytes
unfolding shown mud_db_removed_file
remove_entry_command mud_db_dir ip_addr mac_address =
    mud_db_remove_script
    ++ (codes " -d "
        ++ (mud_db_removed_file mud_db_dir
            ++ (codes " -i " ++ (shown ip_addr ++ (codes " -m " ++ shown mac_address)))))

unfoldable pub verify_command : Option Bytes → Option Bytes → Bytes
unfolding shown
verify_command mud_file_location mud_sig_file_location =
    codes "openssl cms -verify -in "
    ++ (shown mud_sig_file_location
        ++ (codes " -inform DER -content " ++ (shown mud_file_location ++ codes " -purpose any")))

-- the effect of running what fits the buffer
abbrev pub command : Bytes → Effect
command text = system (snprintf buf_size text)

-- the entry that goes to the DNS white list
unfoldable pub dns_rule_line : Option Bytes → Option Bytes → Option Bytes → Option Bytes → Bytes
unfolding shown
dns_rule_line target_domain_name src_ip_addr src_mac_addr src_host_name =
    shown target_domain_name
    ++ (b' '
        ∷ (shown src_host_name
            ++ (b' ' ∷ (shown src_ip_addr ++ (b' ' ∷ (shown src_mac_addr ++ (b'\n' ∷ [])))))))

-- `VALID_MUD_FILE_SIG`
abbrev pub valid_mud_file_sig : ℕ
valid_mud_file_sig = 0

-- `INVALID_MUD_FILE_SIG`
abbrev pub invalid_mud_file_sig : ℕ
invalid_mud_file_sig = 1

module _ (env : Env) where
  unfoldable pub install_firewall_ip_rule : FirewallRule → Exec ℕ
  install_firewall_ip_rule r = do
    action ← lift (get_action_string r.fw_action)
    call env (command (firewall_command r action))

  unfoldable pub commit_and_apply_firewall_rules : Exec ℕ
  commit_and_apply_firewall_rules = call env (system uci_firewall_commit_script)

  unfoldable pub rollback_firewall_configuration : Exec ℕ
  rollback_firewall_configuration = call env (system uci_firewall_rollback_script)

  unfoldable pub remove_firewall_ip_rule : Option Bytes → Option Bytes → Exec ℕ
  remove_firewall_ip_rule ip_addr mac_address =
      call env (command (remove_rule_command ip_addr mac_address))

  unfoldable pub install_mud_db_device_entry :
      Bytes → Option Bytes → Option Bytes → Option Bytes → Option Bytes → Option Bytes → Exec ℕ
  install_mud_db_device_entry mud_db_dir ip_addr mac_address mud_url mud_local_file host_name =
      call env (
        command
          (create_entry_command mud_db_dir ip_addr mac_address mud_url mud_local_file host_name))

  unfoldable pub remove_mud_db_device_entry : Bytes → Option Bytes → Option Bytes → Exec ℕ
  remove_mud_db_device_entry mud_db_dir ip_addr mac_address =
      call env (command (remove_entry_command mud_db_dir ip_addr mac_address))

  -- The flag of a failure to open the file; the file that cannot be opened is not written.
  unfoldable pub install_dns_rule :
      Option Bytes → Option Bytes → Option Bytes → Option Bytes → Bytes → Exec ℕ
  install_dns_rule target_domain_name src_ip_addr src_mac_addr src_host_name file = do
    opened ←
        open_by env (
          append_line file
            (dns_rule_line target_domain_name src_ip_addr src_mac_addr src_host_name))
    pure (if opened then 0 else 1)

  unfoldable pub verify_cms_signature : Option Bytes → Option Bytes → Exec ℕ
  verify_cms_signature mud_file_location mud_sig_file_location = do
    retval ← call env (command (verify_command mud_file_location mud_sig_file_location))
    pure (if retval == 0 then valid_mud_file_sig else invalid_mud_file_sig)
