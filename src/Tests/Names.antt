-- ===== src/Tests/Names.antt =====
-- The names in the commands.
use osmud.Prelude.{some, ◌≡◌, ◌≢◌, refl, true}
use osmud.CString.{codes, to_upper}
use osmud.OpenWrt.{get_action_string, get_protocol_family, mud_db_created_file, mud_db_removed_file}
use osmud.Logging.{get_log_level_from_arg, get_severity_text, is_logged, oms_crit}
use osmud.Logging.Levels.{get_log_level_from_arg-get_severity_text}
use osmud.OpenWrt.Names.{
  get_action_string-get_protocol_family, mud_db_created_file-mud_db_removed_file,
}

get_action_string-get_protocol_family_run :
    (get_action_string (some (codes "Accept")) ≡ get_action_string (some (codes "accept")))
    × (get_protocol_family (some (codes "Accept")) ≡ get_protocol_family (some (codes "accept")))
unfolding to_upper
get_action_string-get_protocol_family_run =
    get_action_string-get_protocol_family (codes "Accept") (codes "accept") refl

mud_db_created_file-mud_db_removed_file_run :
    mud_db_created_file (codes "/var/mud") ≢ mud_db_removed_file (codes "/var/mud")
mud_db_created_file-mud_db_removed_file_run =
    mud_db_created_file-mud_db_removed_file (codes "/var/mud")

get_log_level_from_arg-get_severity_text_example :
    (get_log_level_from_arg (some (codes "critical")) ≡ oms_crit)
    × (is_logged oms_crit (get_log_level_from_arg (some (codes "critical"))) ≡ true)
unfolding to_upper get_severity_text
get_log_level_from_arg-get_severity_text_example =
    get_log_level_from_arg-get_severity_text oms_crit (codes "critical") refl
