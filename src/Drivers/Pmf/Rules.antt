-- ===== src/Drivers/Pmf/Rules.antt =====
-- internal/adapter/pmf/rules.go: the rules of php-malware-finder.
use sentinel_host.Prelude.{Option, [], ◌∷◌, Text}
use sentinel_host.Sched.Cron.{trim_space}
use sentinel_host.Schema.Enums.{
  known_malware, obfuscation, backdoor, webshell, injection, spam_seo, phishing, dropper,
  suspicious_location, suspicious_perms, critical, high, medium, signature, heuristic, anomaly,
}
use sentinel_host.Drivers.Hits.{Mapping}
use sentinel_host.Drivers.Tables.{RuleTable, entry, look_up}

abbrev pub rule_table : RuleTable
rule_table =
    entry "ObfuscatedPhp" obfuscation high heuristic
    ∷ entry "DodgyPhp" backdoor high heuristic
    ∷ entry "DangerousPhp" backdoor critical heuristic
    ∷ entry "DodgyStrings" obfuscation medium heuristic
    ∷ entry "SuspiciousEncoding" known_malware critical signature
    ∷ entry "Websites" spam_seo medium heuristic
    ∷ entry "IRCBot" backdoor critical heuristic
    ∷ entry "HiddenInAFile" obfuscation high heuristic
    ∷ entry "Base64Encoded" obfuscation medium heuristic
    ∷ entry "CloudFlareBypass" webshell high heuristic
    ∷ entry "PhpInUploads" suspicious_location medium anomaly
    ∷ entry "PhpMailer" spam_seo medium heuristic
    ∷ entry "WorldWritableFile" suspicious_perms medium anomaly
    ∷ entry "DodgyPhpFilename" suspicious_location medium anomaly
    ∷ entry "PasswordProtection" webshell high heuristic
    ∷ entry "Shell" webshell critical heuristic
    ∷ entry "WebShell" webshell critical heuristic
    ∷ entry "Phishing" phishing critical heuristic
    ∷ entry "SeoSpam" spam_seo medium heuristic
    ∷ entry "Injection" injection high heuristic
    ∷ entry "Dropper" dropper high heuristic
    ∷ entry "HiddenIframe" injection high heuristic
    ∷ entry "UploaderNoValidate" dropper high heuristic
    ∷ entry "NonPrintableChars" obfuscation medium anomaly
    ∷ entry "DodgyPhpVariables" obfuscation medium heuristic
    ∷ entry "SuspiciousDirectory" suspicious_location medium anomaly
    ∷ []

unfoldable pub classify : Text → Option Mapping
unfolding look_up trim_space
classify rule = look_up (trim_space rule) rule_table
