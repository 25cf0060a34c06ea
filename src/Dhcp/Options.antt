-- ===== src/Dhcp/Options.antt =====
-- plugins/ipam/dhcp/options.go, and `prepareOptions` of lease.go: the options that are sent, and the
-- routes that are received. The numbers of options are those of RFC 2132; the library's list of
-- requested options is a parameter, by its `Add`.
pub mod Provided
pub mod Sent
pub mod Received
use containerz_plugin.Common.{
  ℕ, ◌+◌, ◌-◌, ◌*◌, Bool, true, false, ◌&&◌, ◌||◌, not, List, [], ◌∷◌, ◌++◌, Option, none, some,
  length, ltb, leb, ◌==◌, if◌then◌else◌, Result, ok, err, ◌>>=◌, ◌>>◌, guard, Text, text, text_eq,
  split_on, cut_at,
}
use containerz_plugin.Net.{Ip, IpNet, is_nil, to4}

abbrev pub option_subnet_mask : ℕ
option_subnet_mask = 1

abbrev pub option_router : ℕ
option_router = 3

abbrev pub option_parameter_request_list : ℕ
option_parameter_request_list = 55

abbrev pub option_names : List (Text × ℕ)
option_names =
    (text "dhcp-client-identifier", 61)
    ∷ (text "subnet-mask", option_subnet_mask)
    ∷ (text "routers", option_router)
    ∷ (text "host-name", 12)
    ∷ (text "user-class", 77)
    ∷ (text "vendor-class-identifier", 60)
    ∷ []

abbrev pub code_named : Text → List (Text × ℕ) → Option ℕ
code_named t [] = none
code_named t ((n, c) ∷ rest) = if text_eq n t then some c else code_named t rest

abbrev pub digits_value : ℕ → Text → Option ℕ
digits_value n [] = some n
digits_value n (c ∷ cs) =
    let rest = digits_value (n * 10 + (c - 48)) cs in if leb 48 c && leb c 57 then rest else none

-- `strconv.ParseUint(_, 10, 8)`
abbrev pub parse_uint8 : Text → Option ℕ
parse_uint8 [] = none
parse_uint8 (c ∷ cs) = elim (digits_value 0 (c ∷ cs)) [
  | none ↦ none
  | some n ↦ if leb n 255 then some n else none
]

unfoldable pub parse_option_name : Text → Option ℕ
parse_option_name t = elim (code_named t option_names) [ some c ↦ some c | none ↦ parse_uint8 t ]

pub record ProvideOption : Type 0 where
  pub option : Text
  pub value : Text
  pub from_arg : Text

pub record RequestOption : Type 0 where
  pub skip_default : Bool
  pub option : Text

pub data OptionValue : Type 0 where
  string : Text → OptionValue
  code_list : List ℕ → OptionValue

pub record DhcpOption : Type 0 where
  pub code : ℕ
  pub value : OptionValue

pub data OptionError : Type 0 where
  unknown_option value_too_long : OptionError

-- The pairs of CNI_ARGS that have an equals sign.
unfoldable pub arg_pairs : List Text → List (Text × Text)
arg_pairs [] = []
arg_pairs (t ∷ ts) =
    let rest = arg_pairs ts in elim (cut_at 61 t) [ none ↦ rest | some p ↦ p ∷ rest ]

-- A map of the pairs: of two with one key the later counts.
unfoldable pub arg_value : Text → List (Text × Text) → Option Text
arg_value k [] = none
arg_value k ((n, v) ∷ ps) = elim (arg_value k ps) [
  | some w ↦ some w
  | none ↦ if text_eq n k then some v else none
]

abbrev pub coded : Text → Result OptionError ℕ
coded t = elim (parse_option_name t) [ none ↦ err unknown_option | some c ↦ ok c ]

-- One option with a text, refused above 255 bytes.
abbrev pub with_text : ℕ → Text → Result OptionError (List DhcpOption)
with_text c v =
    if ltb 255 (length v)
    then err value_too_long
    else ok (record { code = c; value = string v } ∷ [])

abbrev pub with_value : ℕ → Text → Result OptionError (List DhcpOption)
with_value c [] = ok []
with_value c (b ∷ bs) = with_text c (b ∷ bs)

abbrev pub with_arg : ℕ → Option Text → Result OptionError (List DhcpOption)
with_arg c none = ok []
with_arg c (some v) = with_text c v

unfoldable pub provided :
    List (Text × Text) → List ProvideOption → Result OptionError (List DhcpOption)
provided args [] = ok []
provided args (p ∷ ps) = do
  c ← coded p.option
  own ← with_value c p.value
  arg ← with_arg c (arg_value p.from_arg args)
  rest ← provided args ps
  ok (own ++ (arg ++ rest))

unfoldable pub skips_default : List RequestOption → Bool
skips_default [] = false
skips_default (r ∷ rs) = r.skip_default || skips_default rs

abbrev pub request_option : List ℕ → List DhcpOption
request_option [] = []
request_option (c ∷ cs) =
    record { code = option_parameter_request_list; value = code_list (c ∷ cs) } ∷ []

module _ (add_code : List ℕ → ℕ → List ℕ) where
  unfoldable pub requested : List ℕ → List RequestOption → Result OptionError (List ℕ)
  requested acc [] = ok acc
  requested acc (r ∷ rs) = elim (text_eq r.option []) [
    | true ↦ requested acc rs
    | false ↦ coded r.option >>= λ c. requested (add_code acc c) rs
  ]

  unfoldable pub prepare_options :
      Text → List ProvideOption → List RequestOption → Result OptionError (List DhcpOption)
  prepare_options cni_args provide request = do
    texts ← provided (arg_pairs (split_on 59 cni_args)) provide
    asked ← requested [] request
    let all =
        if skips_default request
        then asked
        else add_code (add_code asked option_router) option_subnet_mask
    ok (texts ++ request_option all)

pub record Route : Type 0 where
  pub dst : IpNet
  pub gw : Ip

-- `net.IP.DefaultMask` of four bytes
abbrev pub default_mask : Ip → Ip
default_mask [] = []
default_mask (a ∷ _) =
    if ltb a 0x80
    then 255 ∷ 0 ∷ 0 ∷ 0 ∷ []
    else if ltb a 0xC0
    then 255 ∷ 255 ∷ 0 ∷ 0 ∷ []
    else 255 ∷ 255 ∷ 255 ∷ 0 ∷ []

abbrev pub classful_subnet : Ip → IpNet
classful_subnet sn = record { ip = sn; mask = default_mask sn }

-- Pairs of a destination and a router, of four bytes each; what is left over is dropped.
unfoldable pub parse_routes : List ℕ → List Route
parse_routes (a ∷ b ∷ c ∷ d ∷ e ∷ f ∷ g ∷ h ∷ opt) =
    record { dst = classful_subnet (a ∷ b ∷ c ∷ d ∷ []); gw = e ∷ f ∷ g ∷ h ∷ [] }
    ∷ parse_routes opt
parse_routes _ = []
