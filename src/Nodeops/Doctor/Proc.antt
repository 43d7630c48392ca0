-- ===== src/Nodeops/Doctor/Proc.antt =====
-- internal/nodeops/doctor.go: what the kernel's files say.
use uncut_core.Base.{
  ltb, leb, eqb, if◌then◌else◌, length, ◌==◌, ℕ, zero, suc, ◌+◌, ◌-◌, ◌/◌, ◌%◌, Bool, true, false,
  ◌||◌, Option, none, some, List, [], ◌∷◌, ◌++◌,
}
use uncut_core.Text.{Text, codes, text_eq, is_space}
use uncut_core.Text.Trim.{trim_space}
use uncut_core.Text.Split.{split}
use uncut_core.Text.Decimal.{ℤ, pos, negsuc, print, itoa, atoi}
use uncut_core.Files.{Disk, read_file}
use uncut_core.Acme.{quotient}
use uncut_core.Nodeops.Doctor.{Check, good, bad}

unfoldable pub hex_upper : ℕ → ℕ
hex_upper d = if ltb d 10 then b'0' + d else b'A' + (d - 10)

-- The digits of `n` in front of `out`; sixteen rounds are enough for 64 bits.
unfoldable pub hex_digits : ℕ → ℕ → Text → Text
hex_digits zero n out = out
hex_digits (suc fuel) n out =
    let more = hex_digits fuel (n / 16) (hex_upper (n % 16) ∷ out) in
    if eqb (n / 16) 0 then hex_upper (n % 16) ∷ out else more

unfoldable pub zeros : ℕ → Text
zeros zero = []
zeros (suc n) = b'0' ∷ zeros n

abbrev pub padded : ℕ → Text → Text
padded width s = zeros (width - length s) ++ s

-- `%04X`
unfoldable pub hex_port : ℤ → Text
hex_port (pos n) = padded 4 (hex_digits 16 n [])
hex_port (negsuc n) = b'-' ∷ padded 3 (hex_digits 16 (n + 1) [])

-- A character in front of the first word.
abbrev begin : ℕ → List Text → List Text
begin c [] = (c ∷ []) ∷ []
begin c (w ∷ ws) = (c ∷ w) ∷ ws

-- `strings.Fields`
unfoldable pub words : Text → List Text
words [] = []
words (c ∷ []) = if is_space c then [] else (c ∷ []) ∷ []
words (c ∷ d ∷ s) =
    let rest = words (d ∷ s) in
    if is_space c then rest else if is_space d then (c ∷ []) ∷ rest else begin c rest

abbrev port_of : List Text → Text → Bool
port_of (host ∷ port ∷ []) hex = port == hex
port_of parts hex = false

abbrev local_port : List Text → Text → Bool
local_port (slot ∷ addr ∷ rest) hex = port_of (split b':' addr) hex
local_port fields hex = false

unfoldable pub any_local : List Text → Text → Bool
any_local [] hex = false
any_local (line ∷ lines) hex = local_port (words line) hex || any_local lines hex

abbrev behind_header : List Text → List Text
behind_header [] = []
behind_header (header ∷ lines) = lines

abbrev listens_in : Option ℤ → Option Text → Bool
listens_in none table = false
listens_in (some port) none = false
listens_in (some port) (some table) = any_local (behind_header (split 10 table)) (hex_port port)

unfoldable pub udp_listens : Disk → Text → Bool
udp_listens d port = listens_in (atoi port) (read_file (codes "/proc/net/udp") d)

abbrev or_zero : Option ℤ → ℤ
or_zero none = pos 0
or_zero (some n) = n

abbrev pub below : ℤ → ℕ → Bool
below (pos n) m = ltb n m
below (negsuc n) m = true

abbrev sized : ℤ → Text
sized n = itoa n ++ (codes " bytes (" ++ (itoa (quotient n 1048576) ++ codes " MB)"))

-- A number out of the range of an int is none that the kernel writes.
unfoldable pub buffer_check : Text → Option Text → List Check
buffer_check sysctl none = []
buffer_check sysctl (some text) =
    let val = or_zero (atoi (trim_space text)) in
    (if below val 8388608
      then bad (codes "kernel " ++ sysctl)
          (sized val ++ codes "; below 8 MB the UDP socket buffer drops packets under load")
          (codes "run deployments/host.sh on host or set sysctl net.core."
            ++ (sysctl ++ codes "=16777216"))
      else good (codes "kernel " ++ sysctl) (sized val))
    ∷ []

unfoldable pub congestion_check : Option Text → List Check
congestion_check none = []
congestion_check (some text) =
    (if trim_space text == codes "bbr"
      then good (codes "tcp congestion") (codes "bbr")
      else bad (codes "tcp congestion")
          (trim_space text ++ codes " (bbr recommended for VPN throughput)")
          (codes
            "run deployments/host.sh on host or set sysctl net.ipv4.tcp_congestion_control=bbr"))
    ∷ []

unfoldable pub check_kernel_network : Disk → List Check
check_kernel_network d =
    buffer_check (codes "rmem_max") (read_file (codes "/proc/sys/net/core/rmem_max") d)
    ++ (buffer_check (codes "wmem_max") (read_file (codes "/proc/sys/net/core/wmem_max") d)
        ++ congestion_check (read_file (codes "/proc/sys/net/ipv4/tcp_congestion_control") d))

-- `error` is the text of a failed read.
unfoldable pub check_swap : Text → Option Text → Check
check_swap error none = bad (codes "swap") error []
check_swap error (some text) =
    let lines = split 10 (trim_space text) in
    if leb (length lines) 1
    then bad (codes "swap") (codes "no swap configured")
        (codes "add a 1-2GB swap file on host to prevent OOM killer on low-RAM VPS")
    else good (codes "swap") (print (length lines - 1) ++ codes " active swap partition(s)/file(s)")
