-- ===== src/Tests/Resolution.antt =====
-- Hosts with 50 addresses and with 51.
use osmud.Prelude.{◌≡◌, fault, out_of_bounds, some, [], Option, replicate}
use osmud.CString.{Bytes, codes}
use osmud.Outside.{Env}
use osmud.MudManager.Access.{resolve_dns_entry_to_ip}
use osmud.MudManager.Resolution.{resolve_dns_entry_to_ip_lem}
use osmud.Tests.Samples.{calm}

abbrev host : Option Bytes
host = some (codes "m.example")

-- every host has as many addresses as `ipList` has elements
abbrev full : Env
full = record calm { addresses = λ t host. some (replicate 50 (codes "9.9.9.9")) }

-- one more
abbrev crowded : Env
crowded = record calm { addresses = λ t host. some (replicate 51 (codes "9.9.9.9")) }

crowded_run : resolve_dns_entry_to_ip crowded host [] ≡ fault out_of_bounds
crowded_run = resolve_dns_entry_to_ip_lem crowded host []
