-- ===== src/OcpVersion/Again.antt =====
-- `ParseMajorMinorVersion` on a version that it has returned.
use text.Mathlib.TextLemmas.{append-nil}
use osls_operator.Base.{String, ◌≡◌, sym, ok}
use osls_operator.OcpVersion.{parse_major_minor_version}
use osls_operator.OcpVersion.Parse.{parse_major_minor_version_iff}

-- A version that `ParseMajorMinorVersion` has returned is parsed to itself.
pub parse_major_minor_version-fixed :
    (text version : String)
    → parse_major_minor_version text ≡ ok version
    → parse_major_minor_version version ≡ ok version
parse_major_minor_version-fixed text version h =
    let v = (parse_major_minor_version_iff text version).0 h in
    (parse_major_minor_version_iff version version).1 (record {
      major = v.major;
      minor = v.minor;
      rest = "";
      shape = v.shape;
      prefix = sym (append-nil version);
      major_number = v.major_number;
      minor_number = v.minor_number;
      longest = tt;
    })
