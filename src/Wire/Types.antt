-- ===== src/Wire/Types.antt =====
-- The record types of app/dnscore/wire.py: the tables QTYPE and QTYPE_BY_NUM, and `type_to_num`.
pub mod Symmetry
use Prim.Native.Char.{code}
use nova_dns.Prelude.{ℕ, String, Option, none, some, List, [], ◌∷◌, ◌==◌, if◌then◌else◌}
use nova_dns.Text.{Text, text_eq}
use nova_dns.Text.Number.{is_decimal, int_of, str_of}

-- The code points of a literal.
abbrev pub codes : String → Text
codes String.[] = []
codes (String.◌∷◌ c s) = code c ∷ codes s

abbrev pub qtype : List (String × ℕ)
qtype =
    ("A", 1)
    ∷ ("NS", 2)
    ∷ ("MD", 3)
    ∷ ("MF", 4)
    ∷ ("CNAME", 5)
    ∷ ("SOA", 6)
    ∷ ("MB", 7)
    ∷ ("MG", 8)
    ∷ ("MR", 9)
    ∷ ("NULL", 10)
    ∷ ("WKS", 11)
    ∷ ("PTR", 12)
    ∷ ("HINFO", 13)
    ∷ ("MINFO", 14)
    ∷ ("MX", 15)
    ∷ ("TXT", 16)
    ∷ ("RP", 17)
    ∷ ("AFSDB", 18)
    ∷ ("X25", 19)
    ∷ ("ISDN", 20)
    ∷ ("RT", 21)
    ∷ ("SIG", 24)
    ∷ ("KEY", 25)
    ∷ ("PX", 26)
    ∷ ("GPOS", 27)
    ∷ ("AAAA", 28)
    ∷ ("LOC", 29)
    ∷ ("NXT", 30)
    ∷ ("SRV", 33)
    ∷ ("NAPTR", 35)
    ∷ ("KX", 36)
    ∷ ("CERT", 37)
    ∷ ("DNAME", 39)
    ∷ ("OPT", 41)
    ∷ ("APL", 42)
    ∷ ("DS", 43)
    ∷ ("SSHFP", 44)
    ∷ ("IPSECKEY", 45)
    ∷ ("RRSIG", 46)
    ∷ ("NSEC", 47)
    ∷ ("DNSKEY", 48)
    ∷ ("DHCID", 49)
    ∷ ("NSEC3", 50)
    ∷ ("NSEC3PARAM", 51)
    ∷ ("TLSA", 52)
    ∷ ("SMIMEA", 53)
    ∷ ("HIP", 55)
    ∷ ("CDS", 59)
    ∷ ("CDNSKEY", 60)
    ∷ ("OPENPGPKEY", 61)
    ∷ ("SVCB", 64)
    ∷ ("HTTPS", 65)
    ∷ ("SPF", 99)
    ∷ ("TKEY", 249)
    ∷ ("TSIG", 250)
    ∷ ("IXFR", 251)
    ∷ ("AXFR", 252)
    ∷ ("MAILB", 253)
    ∷ ("MAILA", 254)
    ∷ ("ANY", 255)
    ∷ ("URI", 256)
    ∷ ("CAA", 257)
    ∷ ("TA", 32768)
    ∷ ("DLV", 32769)
    ∷ []

-- QTYPE.get(name)
unfoldable pub number_of : List (String × ℕ) → Text → Option ℕ
number_of [] name = none
number_of ((k, v) ∷ table) name =
    let rest = number_of table name in if text_eq (codes k) name then some v else rest

-- QTYPE_BY_NUM.get(number)
unfoldable pub name_of : List (String × ℕ) → ℕ → Option Text
name_of [] number = none
name_of ((k, v) ∷ table) number =
    let rest = name_of table number in if v == number then some (codes k) else rest

-- QTYPE_BY_NUM.get(number, str(number))
unfoldable pub type_name : ℕ → Text
unfolding name_of str_of
type_name number = elim (name_of qtype number) [ none ↦ str_of number | some name ↦ name ]

abbrev any_type : ℕ
any_type = 255

unfoldable pub type_to_num : Text → ℕ
unfolding number_of is_decimal int_of text_eq
type_to_num rtype = elim (number_of qtype rtype) [
  | some number ↦ number
  | none ↦ if is_decimal rtype then int_of rtype else any_type
]
