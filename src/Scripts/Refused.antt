-- ===== src/Scripts/Refused.antt =====
-- An ace without ports: its command has `(null):(null)` for the ports, which the shell refuses.
use osmud.Prelude.{
  ℕ, ◌<◌, Bool, true, false, [], ◌∷◌, ◌++◌, ◌≡◌, refl, ap, ◌∙◌, arith, if◌then◌else◌, length,
}
use osmud.CString.{Bytes, codes, snprintf, shown}
use osmud.CString.Laws.{snprintf_fits}
use osmud.MudParser.Document.{Ports, any_port, one_port, port_range}
use osmud.OpenWrt.{FirewallRule, firewall_command, command, buf_size, uci_firewall_script}
use osmud.Scripts.Shell.{any_byte, is_special, is_paren, syntax_error, simple}
use osmud.Scripts.Quiet.{read_command-BeginsWith, firewall-BeginsWith}
use osmud.Scripts.Machine.{World, Tools, run_effect, run_command_text, run_reading}

any_byte-right : (p : ℕ → Bool) (a b : Bytes) → any_byte p b ≡ true → any_byte p (a ++ b) ≡ true
unfolding any_byte
any_byte-right p [] b h = h
any_byte-right p (c ∷ cs) b h = ground (arith, any_byte-right p cs b h)

-- The command of a rule whose ports are both NULL has a parenthesis.
paren_in_ports :
    (r : FirewallRule) (action : Bytes)
    → r.dest_port ≡ codes "(null):(null)"
    → any_byte is_paren (firewall_command r action) ≡ true
unfolding firewall_command any_byte
paren_in_ports r action e = any_byte-right is_paren r.src_device _ (
    any_byte-right is_paren r.dest_device _ (
      any_byte-right is_paren (shown r.src_ip) _
        (any_byte-right is_paren (shown r.dest_ip) _ (rw e refl))))

-- Is the rule for any port, with an address that a command is made for?
abbrev pub is_any : Ports → Bool
is_any any_port = true
is_any (one_port p) = false
is_any (port_range lower upper) = false

module _ {S : Type 0} (tools : Tools S) where
  -- The command of a rule whose ports are both NULL, without a byte that is special for the shell and
  -- short enough for the buffer, ends with status 2 and changes nothing.
  pub run_effect-no_ports :
      (r : FirewallRule) (action : Bytes) (w : World S)
      → r.dest_port ≡ codes "(null):(null)"
      → any_byte is_special (firewall_command r action) ≡ false
      → length (firewall_command r action) < buf_size
      → run_effect tools (command (firewall_command r action)) w ≡ (2, w)
  unfolding run_command_text run_reading
  run_effect-no_ports r action w ports literal fits =
      let text = firewall_command r action in
      let whole = snprintf_fits buf_size text fits in
      let read =
        read_command-BeginsWith uci_firewall_script (snprintf buf_size text)
          (firewall-BeginsWith r action) (ap (any_byte is_special) whole ∙ literal) in
      let paren = ap (any_byte is_paren) whole ∙ paren_in_ports r action ports in
      let b = firewall-BeginsWith r action in
      ap (λ o. run_reading tools (snprintf buf_size text) o w)
        (read
          ∙ ap
              (λ (q : Bool).
                if q then syntax_error else simple (uci_firewall_script ∷ b.second ∷ b.more))
              paren)
