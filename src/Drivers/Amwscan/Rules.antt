-- ===== src/Drivers/Amwscan/Rules.antt =====
-- internal/adapter/amwscan/rules.go: the rules of AMWScan.
use sentinel_host.Prelude.{Option, none, some, [], ◌∷◌, Text, is_empty, if◌then◌else◌}
use sentinel_host.Sched.Cron.{trim_space}
use sentinel_host.Config.Alerts.{to_lower}
use sentinel_host.Schema.Enums.{
  known_malware, obfuscation, backdoor, webshell, injection, spam_seo, phishing, dropper,
  suspicious_perms, other, critical, high, medium, signature, heuristic, anomaly,
}
use sentinel_host.Drivers.Hits.{Mapping}
use sentinel_host.Drivers.Tables.{RuleTable, entry, look_up}

abbrev pub rule_table : RuleTable
rule_table =
    entry "signature" known_malware critical signature
    ∷ entry "malware signature" known_malware critical signature
    ∷ entry "backdoor" backdoor critical heuristic
    ∷ entry "webshell" webshell critical heuristic
    ∷ entry "shell" webshell critical heuristic
    ∷ entry "obfuscator" obfuscation high heuristic
    ∷ entry "obfuscated" obfuscation high heuristic
    ∷ entry "encoded" obfuscation medium heuristic
    ∷ entry "eval" backdoor critical heuristic
    ∷ entry "exec" webshell critical heuristic
    ∷ entry "system" webshell critical heuristic
    ∷ entry "shell_exec" webshell critical heuristic
    ∷ entry "passthru" webshell critical heuristic
    ∷ entry "assert" backdoor high heuristic
    ∷ entry "phishing" phishing critical heuristic
    ∷ entry "spam" spam_seo medium heuristic
    ∷ entry "seo" spam_seo medium heuristic
    ∷ entry "mailer" spam_seo high heuristic
    ∷ entry "uploader" dropper high heuristic
    ∷ entry "dropper" dropper high heuristic
    ∷ entry "downloader" dropper high heuristic
    ∷ entry "injection" injection high heuristic
    ∷ entry "iframe" injection high heuristic
    ∷ entry "include" injection high heuristic
    ∷ entry "irc" backdoor critical heuristic
    ∷ entry "crypto" other medium heuristic
    ∷ entry "suspicious" other medium heuristic
    ∷ entry "unsafe" other medium heuristic
    ∷ entry "permissions" suspicious_perms medium anomaly
    ∷ entry "execution" backdoor critical heuristic
    ∷ entry "nano" webshell critical heuristic
    ∷ entry "clever_include" injection high heuristic
    ∷ entry "base64_long" obfuscation medium heuristic
    ∷ entry "hex_char" obfuscation medium heuristic
    ∷ entry "double_var2" obfuscation medium heuristic
    ∷ entry "concat_vars_array" obfuscation medium heuristic
    ∷ entry "concat_vars_with_spaces" obfuscation medium heuristic
    ∷ entry "infected_comment" other high heuristic
    ∷ []

unfoldable pub look_up_rule : Text → Option Mapping
unfolding look_up to_lower trim_space
look_up_rule name = look_up (to_lower (trim_space name)) rule_table

abbrev pub or_rule : Option Mapping → Option Mapping → Option Mapping
or_rule none m = m
or_rule (some m) n = some m

-- The detail in parentheses is tried before the rule's name.
unfoldable pub classify : (rule detail : Text) → Option Mapping
unfolding look_up_rule
classify rule detail =
    or_rule (if is_empty detail then none else look_up_rule detail) (look_up_rule rule)
