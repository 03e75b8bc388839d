-- ===== src/Guards.antt =====
-- apps/console/lib/tokens.ts: what stands in front of the free-text AT box and of each command
-- (`AT_COMMAND_GUARDS` to `deviceCommandGuard`). A kind named like a property of `Object.prototype` is not
-- modelled.
pub mod Table
pub mod Asked
pub mod Harmless
pub mod Unasked
use vodoge_cloud.Prelude.{
  String, Bool, true, false, ◌&&◌, Option, none, some, List, [], ◌∷◌, ◌++◌, ◌==◌, if◌then◌else◌,
}
use vodoge_cloud.Text.{Text, units, text_eq, trim, is_space, is_digit}
use vodoge_cloud.Json.{Json, bool, str, Props, lookup, text_of}
use vodoge_cloud.Assoc.{Assoc, get}
use vodoge_cloud.Pattern.{
  Pattern, empty, one, star, seq, alt, at_end, boundary, word, matches_at_start,
}

pub record AtCommandGuard : Type 0 where
  pub id : Text
  pub label : Text
  pub pattern : Pattern
  pub consequence : Text

-- \s*, \d+ and a literal
abbrev pub spaces : Pattern
spaces = star is_space

abbrev pub digits : Pattern
digits = seq (one is_digit) (star is_digit)

unfoldable pub literal : String → Pattern
unfolding word units
literal s = word (units s)

-- `name\s*=`
unfoldable pub assigns : String → Pattern
unfolding literal
assigns name = seq (literal name) (seq spaces (literal "="))

infixr 5 ◌then◌
abbrev pub ◌then◌ : Pattern → Pattern → Pattern
p then q = seq p q

unfoldable pub at_command_guards : List AtCommandGuard
unfolding units literal assigns
at_command_guards =
    record {
      id = units "usbnet";
      label = units "AT+QCFG=\"usbnet\",N";
      pattern =
          assigns "at+qcfg"
          then spaces
          then literal "\"usbnet\""
          then spaces
          then literal ","
          then spaces
          then digits;
      consequence = units "device.atGuardUsbnet";
    }
    ∷ record {
      id = units "cfun-reset";
      label = units "AT+CFUN=N,1";
      pattern =
          assigns "at+cfun"
          then spaces
          then digits
          then spaces
          then literal ","
          then spaces
          then literal "1"
          then spaces
          then at_end;
      consequence = units "device.atGuardCfunReset";
    }
    ∷ record {
      id = units "cfun-off";
      label = units "AT+CFUN=0 / =4 / =7";
      pattern =
          assigns "at+cfun"
          then spaces
          then alt (literal "0") (alt (literal "4") (literal "7"))
          then spaces
          then alt (literal "," then spaces then literal "0" then spaces) empty
          then at_end;
      consequence = units "device.atGuardCfunOff";
    }
    ∷ record {
      id = units "cops-manual";
      label = units "AT+COPS=1,… / =2";
      pattern =
          assigns "at+cops"
          then spaces
          then alt (literal "1") (literal "2")
          then spaces
          then alt (literal ",") at_end;
      consequence = units "device.atGuardCops";
    }
    ∷ record {
      id = units "crsm-write";
      label = units "AT+CRSM=214/219/220,…";
      pattern =
          assigns "at+crsm"
          then spaces
          then alt (literal "214") (alt (literal "219") (literal "220"))
          then boundary;
      consequence = units "device.atGuardCrsm";
    }
    ∷ record {
      id = units "csim";
      label = units "AT+CSIM=…";
      pattern = assigns "at+csim";
      consequence = units "device.atGuardCsim";
    }
    ∷ record {
      id = units "logical-channel";
      label = units "AT+CCHO / +CGLA / +CCHC";
      pattern =
          literal "at+"
          then alt (literal "ccho") (alt (literal "cgla") (literal "cchc"))
          then boundary;
      consequence = units "device.atGuardChannel";
    }
    ∷ record {
      id = units "nvram";
      label = units "AT+QPRTPARA=…";
      pattern = assigns "at+qprtpara";
      consequence = units "device.atGuardNvram";
    }
    ∷ []

-- The loop: the first guard that the command trips.
unfoldable pub first_tripped : Text → List AtCommandGuard → Option AtCommandGuard
first_tripped typed [] = none
first_tripped typed (guard ∷ guards) =
    let rest = first_tripped typed guards in
    if matches_at_start guard.pattern typed then some guard else rest

unfoldable pub at_command_guard : Text → Option AtCommandGuard
at_command_guard command = first_tripped (trim command) at_command_guards

pub record CommandGuard : Type 0 where
  pub consequence : Option Text
  pub why : Text

pub record CommandGuardVariant : Type 0 where
  pub when : Assoc Json
  pub guard : CommandGuard

-- `left === right`, for a right side that is a text or a Boolean
abbrev pub is_same : Option Json → Json → Bool
is_same (some (bool a)) (bool b) = if a then b else (if b then false else true)
is_same (some (str s)) (str t) = text_eq s t
is_same _ _ = false

-- `Object.entries(when).every(...)`
unfoldable pub fits : Assoc Json → Props → Bool
fits [] payload = true
fits ((field, value) ∷ when) payload = is_same (lookup field payload) value && fits when payload

-- The loop over the variants, with what stands behind it.
unfoldable pub first_fitting : List CommandGuardVariant → Props → CommandGuard → CommandGuard
first_fitting [] payload otherwise = otherwise
first_fitting (variant ∷ variants) payload otherwise =
    let rest = first_fitting variants payload otherwise in
    if fits variant.when payload then variant.guard else rest

unfoldable pub unknown_command : String → CommandGuard
unfolding units
unknown_command why = record {
  consequence = some (units "device.confirmUnknownCommand");
  why = units why;
}
