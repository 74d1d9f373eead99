-- ===== src/Drivers/Maldet/Rules.antt =====
-- internal/adapter/maldet/rules.go: signature types and families.
use Prim.Native.String.{String}
use sentinel_host.Prelude.{
  ◌||◌, Option, none, some, List, [], ◌∷◌, Text, codes, text_eq, if◌then◌else◌,
}
use sentinel_host.Config.Alerts.{to_lower}
use sentinel_host.Schema.Enums.{
  Category, known_malware, obfuscation, backdoor, webshell, injection, spam_seo, phishing, dropper,
  other, Severity, critical, high, medium, Confidence, signature, heuristic, anomaly,
}
use sentinel_host.Drivers.Lines.{to_upper, has_substring}

-- The type of a signature, the prefix in braces.
unfoldable pub confidence_for_type : Text → Confidence
unfolding to_upper
confidence_for_type t =
    let u = to_upper t in
    if text_eq u (codes "HEX") || text_eq u (codes "MD5")
    then signature
    else if text_eq u (codes "YARA") || (text_eq u (codes "CAV") || text_eq u (codes "CLAMAV"))
    then heuristic
    else anomaly

pub record Family : Type 0 where
  pub fragment : Text
  pub category : Category
  pub severity : Severity

abbrev family : String → Category → Severity → Family
family f c s = record { fragment = codes f; category = c; severity = s }

abbrev pub family_table : List Family
family_table =
    family "cmdshell" webshell critical
    ∷ family "shell" webshell critical
    ∷ family "backdoor" backdoor critical
    ∷ family "bkdr" backdoor critical
    ∷ family "irc" backdoor critical
    ∷ family "base64" obfuscation high
    ∷ family "gzbase64" obfuscation high
    ∷ family "obfus" obfuscation high
    ∷ family "encode" obfuscation medium
    ∷ family "phishing" phishing critical
    ∷ family "phish" phishing critical
    ∷ family "mailer" spam_seo high
    ∷ family "spam" spam_seo medium
    ∷ family "seo" spam_seo medium
    ∷ family "uploader" dropper high
    ∷ family "dropper" dropper high
    ∷ family "downloader" dropper high
    ∷ family "inject" injection high
    ∷ family "iframe" injection high
    ∷ family "defac" injection high
    ∷ family "exploit" other high
    ∷ family "trojan" known_malware critical
    ∷ family "malware" known_malware critical
    ∷ family "virus" known_malware critical
    ∷ family "corpus" known_malware critical
    ∷ []

unfoldable pub find_family : Text → List Family → Option Family
find_family name [] = none
find_family name (f ∷ fs) =
    let rest = find_family name fs in if has_substring name f.fragment then some f else rest

-- The first family whose fragment the name holds.
unfoldable pub classify : Text → Option Family
unfolding find_family to_lower
classify name = find_family (to_lower name) family_table

-- The category and severity of a hit, where an unknown family is other and medium.
unfoldable pub category_of : Option Family → Category
category_of none = other
category_of (some f) = f.category

unfoldable pub severity_of : Option Family → Severity
severity_of none = medium
severity_of (some f) = f.severity
