-- ===== src/Wire.antt =====
-- common/tts_defs.h: the methods that the daemon offers on the bus, and the arguments of a message as
-- dbus_message_append_args puts them in and dbus_message_get_args takes them out. A reading asks for the
-- types of the first arguments and ignores what follows them.
use Prim.Native.String.{String}
use framework_uifw_voice_tts.Prelude.{Option, none, some, List, ◌∷◌, ℤ}

pub data ServerMethod : Type 0 where
  hello_method initialize_method finalize_method get_support_voices_method get_current_voice_method
        add_queue_method play_method stop_method pause_method :
      ServerMethod
  setting_hello_method setting_initialize_method setting_finalize_method get_engine_list_method
        get_engine_method set_engine_method get_voice_list_method get_default_voice_method
        set_default_voice_method get_default_speed_method set_default_speed_method
        get_engine_setting_method set_engine_setting_method :
      ServerMethod

pub data Arg : Type 0 where
  arg_int : ℤ → Arg
  arg_string : String → Arg

-- One INT32.
abbrev pub get_int : List Arg → Option ℤ
get_int (arg_int n ∷ _) = some n
get_int _ = none

abbrev pub get_int_int : List Arg → Option (ℤ × ℤ)
get_int_int (arg_int m ∷ arg_int n ∷ _) = some (m, n)
get_int_int _ = none

abbrev pub get_int_int_int : List Arg → Option (ℤ × ℤ × ℤ)
get_int_int_int (arg_int k ∷ arg_int m ∷ arg_int n ∷ _) = some (k, m, n)
get_int_int_int _ = none

abbrev pub get_int_string : List Arg → Option (ℤ × String)
get_int_string (arg_int n ∷ arg_string s ∷ _) = some (n, s)
get_int_string _ = none

abbrev pub get_int_string_int : List Arg → Option (ℤ × String × ℤ)
get_int_string_int (arg_int m ∷ arg_string s ∷ arg_int n ∷ _) = some (m, s, n)
get_int_string_int _ = none

abbrev pub get_int_string_string : List Arg → Option (ℤ × String × String)
get_int_string_string (arg_int m ∷ arg_string s ∷ arg_string t ∷ _) = some (m, s, t)
get_int_string_string _ = none

-- The arguments of TTS_METHOD_ADD_QUEUE.
abbrev pub get_text : List Arg → Option (ℤ × String × String × ℤ × ℤ × ℤ)
get_text (arg_int u ∷ arg_string t ∷ arg_string l ∷ arg_int v ∷ arg_int s ∷ arg_int i ∷ _) =
    some (u, t, l, v, s, i)
get_text _ = none
