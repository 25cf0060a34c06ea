-- ===== src/Tuning/Sysctl.antt =====
-- plugins/meta/tuning/tuning.go: the file of a sysctl. `filepath.Join`, which cleans the path, is a
-- parameter.
use containerz_plugin.Common.{
  Bool, true, false, [], ◌∷◌, ◌++◌, Option, none, some, drop, ◌==◌, if◌then◌else◌, Text, text,
}

-- `strings.HasPrefix`
unfoldable pub has_prefix : Text → Text → Bool
has_prefix [] t = true
has_prefix (p ∷ ps) [] = false
has_prefix (p ∷ ps) (c ∷ cs) = let rest = has_prefix ps cs in if p == c then rest else false

-- `strings.ReplaceAll(_, ".", "/")`
unfoldable pub slashed : Text → Text
slashed [] = []
slashed (c ∷ cs) = (if c == 46 then 47 else c) ∷ slashed cs

-- `strings.Replace(_, "IFNAME", ifName, 1)`
unfoldable pub put_if_name : Text → Text → Text
put_if_name if_name [] = []
put_if_name if_name (c ∷ cs) =
    let rest = put_if_name if_name cs in
    if has_prefix (text "IFNAME") (c ∷ cs) then if_name ++ drop 6 (c ∷ cs) else c ∷ rest

-- `getSysctlFilename`; `none` is its error.
unfoldable pub get_sysctl_filename : (Text → Text → Text) → Text → Text → Option Text
get_sysctl_filename join key if_name =
    let f = join (text "/proc/sys") (put_if_name if_name (slashed key)) in
    if has_prefix (text "/proc/sys/net/") f then some f else none
