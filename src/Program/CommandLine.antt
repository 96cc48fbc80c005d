-- ===== src/Program/CommandLine.antt =====
-- The options of src/src/main.cpp: `ShowVersion`, `DisplayHelp`, `HandleOptionArgument` and
-- `ProcessCommandLine`, with what they print and the exit that they cause; and the configuration of
-- src/include/daemonConfig.hpp.
use Prim.Native.String.{String}
use boilerplate_thread_messa.Prelude.{
  ℕ, ◌≡◌, refl, Bool, true, false, ◌||◌, Option, none, some, List, [], ◌∷◌, ◌++◌, arith,
  if◌then◌else◌, is_empty,
}
use boilerplate_thread_messa.Prelude.Text.{Text, text, to_string}

pub record DaemonConfig : Type 0 where
  pub pid_file : String
  pub is_daemon : Bool
  pub path_config_file : String

abbrev pub new_config : DaemonConfig
new_config = record {
  pid_file = "/var/run/thread_msg.pid";
  is_daemon = false;
  path_config_file = "";
}

-- A line, without its end, and the stream that it goes to.
pub data Line : Type 0 where
  cout cerr : Text → Line

-- What a call prints, and the code of an `exit` in it.
pub record Report : Type 0 where
  pub lines : List Line
  pub exit_code : Option ℕ

abbrev pub exit_success : ℕ
exit_success = 0

abbrev pub exit_failure : ℕ
exit_failure = 1

unfoldable pub show_version : Text → List Line
show_version prog = cout prog ∷ []

abbrev pub k_option_help_lines : List Line
k_option_help_lines =
    cout (text "  -D, --demonization       start in background")
    ∷ cout (text "  -v, --version            version")
    ∷ cout (text "  -h, --help               this message")
    ∷ []

-- A null `errorOption` is the empty text.
unfoldable pub display_help : Text → Text → Report
display_help program_name error_option =
    let usage =
      cout []
      ∷ cout (text "Usage: " ++ (program_name ++ text " [OPTIONS]"))
      ∷ cout []
      ∷ k_option_help_lines in
    if is_empty error_option then record { lines = usage; exit_code = none } else record {
      lines = cerr (text "Error in option: " ++ error_option) ∷ usage;
      exit_code = some exit_failure;
    }

unfoldable pub handle_option_argument : Text → Text → Text → Report
unfolding display_help
handle_option_argument option argument argv0 =
    let help = display_help argv0 [] in
    if is_empty argument
    then record help {
      lines = cerr (text "Missing " ++ (option ++ text " argument for option")) ∷ help.lines;
    }
    else record { lines = []; exit_code = none }

-- What `getopt_long` gives: `long_help` is the long option, whose value is 0.
pub data CommandOption : Type 0 where
  long_help letter_h letter_question letter_v letter_d : CommandOption
  other_value : ℕ → CommandOption

pub data Parsed : Type 0 where
  exited : ℕ → Parsed
  go_on : Bool → Parsed

abbrev pub say : List Line → List Line × Parsed → List Line × Parsed
say ls (ms, r) = (ls ++ ms, r)

-- The loop; `is_daemon` is `config.isDaemon` so far.
unfoldable pub process_command_line : Text → List CommandOption → Bool → List Line × Parsed
unfolding show_version display_help
process_command_line argv0 [] is_daemon = ([], go_on is_daemon)
process_command_line argv0 (long_help ∷ os) is_daemon =
    say (display_help argv0 []).lines (process_command_line argv0 os is_daemon)
process_command_line argv0 (letter_h ∷ os) is_daemon =
    ((display_help argv0 []).lines, exited exit_success)
process_command_line argv0 (letter_question ∷ os) is_daemon =
    ((display_help argv0 []).lines, exited exit_success)
process_command_line argv0 (letter_v ∷ os) is_daemon = (show_version argv0, exited exit_success)
process_command_line argv0 (letter_d ∷ os) is_daemon = process_command_line argv0 os true
process_command_line argv0 (other_value n ∷ os) is_daemon =
    say (cerr (text "Unknown option: " ++ to_string n) ∷ (display_help argv0 []).lines)
      (process_command_line argv0 os is_daemon)

-- Which options end the program, and which one asks for the background.
abbrev pub ends_program : CommandOption → Bool
ends_program letter_h = true
ends_program letter_question = true
ends_program letter_v = true
ends_program _ = false

abbrev pub asks_background : CommandOption → Bool
asks_background letter_d = true
asks_background _ = false

abbrev pub any : (CommandOption → Bool) → List CommandOption → Bool
any p [] = false
any p (o ∷ os) = p o || any p os

-- The loop ends the program, with success, exactly when one of `-h`, `-?` and `-v` occurs, wherever
-- it stands; otherwise the program goes on, in the background exactly when `-D` occurs or it was
-- asked for before. Neither `--help` nor an unknown value changes that.
pub process_command_line_lem :
    (argv0 : Text) (os : List CommandOption) (is_daemon : Bool)
    → (process_command_line argv0 os is_daemon).1 ≡ (
        if any ends_program os
        then exited exit_success
        else go_on (is_daemon || any asks_background os))
unfolding process_command_line
process_command_line_lem argv0 [] is_daemon = ground arith
process_command_line_lem argv0 (long_help ∷ os) is_daemon =
    process_command_line_lem argv0 os is_daemon
process_command_line_lem argv0 (letter_h ∷ os) is_daemon = refl
process_command_line_lem argv0 (letter_question ∷ os) is_daemon = refl
process_command_line_lem argv0 (letter_v ∷ os) is_daemon = refl
process_command_line_lem argv0 (letter_d ∷ os) is_daemon =
    ground (arith, process_command_line_lem argv0 os true)
process_command_line_lem argv0 (other_value n ∷ os) is_daemon =
    process_command_line_lem argv0 os is_daemon
