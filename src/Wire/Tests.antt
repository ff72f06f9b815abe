-- ===== src/Wire/Tests.antt =====
-- The theorem about the encoding of names in src/dns/response.rs at two spellings of a name.
use rustyalias.Common.{◌≡◌, refl, true, codes}
use rustyalias.Text.{trim_dots, eq_ignore_case, to_lower}
use rustyalias.Wire.{names_eq, encode_domain_name}
use rustyalias.Wire.Encode.{encode_domain_name-names_eq}

spellings_equal : names_eq (codes "NS1.Example.com.") (codes "ns1.example.COM") ≡ true
unfolding names_eq trim_dots eq_ignore_case to_lower
spellings_equal = refl

encode_domain_name-names_eq_example :
    encode_domain_name (codes "NS1.Example.com.") ≡ encode_domain_name (codes "ns1.example.COM")
encode_domain_name-names_eq_example =
    encode_domain_name-names_eq (codes "NS1.Example.com.") (codes "ns1.example.COM") spellings_equal
