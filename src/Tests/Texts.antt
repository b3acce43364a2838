-- ===== src/Tests/Texts.antt =====
-- Texts and patterns at small inputs.
use transport_lookout.Prelude.{
  pos, negsuc, ℕ, Bool, true, false, ◌&&◌, leb, ◌≡◌, refl, some, [], ◌∷◌,
}
use transport_lookout.Text.{decimal, int, words}
use transport_lookout.Schemas.{is_ports}
use transport_lookout.Worker.CommandLine.{masscan_command}
use transport_lookout.Tests.Data.{profile}

decimal_runs : decimal 4096 ≡ "4096"
unfolding decimal
decimal_runs = refl

int_runs : int " +4_43 " ≡ some (pos 443)
unfolding int
int_runs = refl

int_negates : int "-5" ≡ some (negsuc 4)
unfolding int
int_negates = refl

words_run : words " -sV  -n" ≡ "-sV" ∷ "-n" ∷ []
unfolding words
words_run = refl

-- "0" to "9"
abbrev is_digit : ℕ → Bool
is_digit c = leb 48 c && leb c 57

ports_match : is_ports is_digit "T:80,443-445,U:53" ≡ true
unfolding is_ports
ports_match = refl

ports_do_not_match : is_ports is_digit "80,,443" ≡ false
unfolding is_ports
ports_do_not_match = refl

masscan_line :
    masscan_command (record profile { ports = "T:80,443" }) "10.0.0.0/24" "/tmp/out.xml"
    ≡ "masscan" ∷ "10.0.0.0/24" ∷ "-p" ∷ "80,443" ∷ "--rate" ∷ "500" ∷ "--wait" ∷ "5" ∷ "-oX"
      ∷ "/tmp/out.xml" ∷ []
unfolding masscan_command
masscan_line = refl
