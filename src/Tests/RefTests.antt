-- ===== src/Tests/RefTests.antt =====
-- Tests of the ref modules, on a machine that has one file.
use Prim.Native.String.{String}
use oku.Base.{
  Bytes, List, Option, Result, [], codes, cut, cut_prefix, equal, err, false, has_prefix,
  has_suffix, none, not, ok, refl, some, split, split_pieces, trim_prefix, ◌++◌, ◌||◌, ◌∷◌, ◌≡◌,
}
use oku.Ref.{Kind, to_string, Ref, RefError, cut_last, is_path, kind_prefix, split_version}
use oku.Ref.Accepted.{parse_in-IsValid}
use oku.Ref.Parse.{
  first_body, fits_scheme, fragment_error, parse_body, parse_forge, parse_in, parse_place,
  parse_registry, plain_ref,
}
use oku.Ref.Reparse.{parse_in-spelled}
use oku.Ref.Round.{forge_ref}
use oku.Ref.Shapes.{has_scheme}
use oku.Ref.Valid.{IsValid}
use oku.Ref.Urls.{System, Url, encrypted, repo_url, trim_byte}

abbrev last_part : List Bytes → Bytes
last_part [] = []
last_part (s ∷ []) = s
last_part (s ∷ t ∷ parts) = last_part (t ∷ parts)

-- https, a host and a path, with no port, no query and no user
abbrev read_url : Bytes → Option Url
read_url s =
    let place = cut b'/' (trim_prefix (codes "https://") (trim_prefix (codes "http://") s)) in
    some record {
      url_scheme = codes "https";
      host = place.before;
      hostname = place.before;
      port = [];
      path = b'/' ∷ place.after;
      raw_query = [];
      url_fragment = [];
      user = none;
    }

abbrev machine : System
machine = record {
  exists = λ s. equal s (codes "/w/odd@1");
  absolute = λ s. some s;
  is_absolute = has_prefix (codes "/");
  has_volume = λ s. false;
  join_path = λ dir s. dir ++ (b'/' ∷ s);
  is_local = λ s. not (has_prefix (codes "..") s || has_prefix (codes "/") s);
  base = λ s. last_part (split b'/' s);
  parse_url = read_url;
  is_loopback = equal (codes "127.0.0.1");
}

abbrev parsed : String → Result RefError Ref
parsed s = parse_in machine (codes "/w") (codes s)

abbrev gh : Ref
gh = forge_ref (codes "github") (codes "cli/cli") (codes "gh") (codes "2.1.0")

parses : parsed "github:cli/cli#gh@2.1.0" ≡ ok gh
unfolding parse_in first_body parse_body parse_forge repo_url has_prefix split_version cut_last cut
    fits_scheme equal split split_pieces fragment_error is_path has_suffix
parses = refl

from_page :
    parsed "https://github.com/cli/cli.git"
    ≡ ok (forge_ref (codes "github") (codes "cli/cli") [] [])
unfolding parse_in first_body parse_body parse_forge repo_url has_prefix split_version cut_last cut
    cut_prefix fits_scheme equal split split_pieces fragment_error is_path has_suffix trim_byte
from_page = refl

of_file : parsed "odd@1" ≡ ok (plain_ref Kind.file_kind (codes "/w/odd@1") [])
unfolding parse_in first_body parse_body parse_place repo_url has_prefix has_scheme equal
of_file = refl

plain_http : parsed "http://oku.dev/a.toml" ≡ err RefError.not_encrypted
unfolding parse_in first_body parse_body parse_place repo_url has_prefix split_version cut_last
    encrypted cut cut_prefix split split_pieces equal
plain_http = refl

typo : parsed "gihub:cli/cli" ≡ err RefError.unknown_scheme
unfolding parse_in first_body parse_body parse_place repo_url has_prefix split_version cut_last
    has_scheme equal
typo = refl

npm_scope :
    parsed "npm:@me/tool@1.2" ≡ ok (plain_ref Kind.npm_kind (codes "@me/tool") (codes "1.2"))
unfolding parse_in first_body parse_body parse_registry repo_url has_prefix split_version cut_last
    cut_prefix split split_pieces equal
npm_scope = refl

cask_at : parsed "cask:temurin@21" ≡ ok (plain_ref Kind.cask_kind (codes "temurin@21") [])
unfolding parse_in first_body parse_body parse_registry repo_url has_prefix cut_prefix split
    split_pieces equal
cask_at = refl

-- A file's name with '@' in the fragment is cut at the '@' when it is parsed without its version.
at_in_fragment :
    parse_in machine [] (to_string (forge_ref (codes "github") (codes "o/r") (codes "a@x.toml") []))
    ≡ ok (forge_ref (codes "github") (codes "o/r") (codes "a") (codes "x.toml"))
unfolding to_string kind_prefix parse_in first_body parse_body parse_forge repo_url has_prefix
    split_version cut_last cut fits_scheme equal split split_pieces fragment_error is_path
    has_suffix
at_in_fragment = refl

parse_in-spelled_example : parsed "github:cli/cli#gh@2.1.0" ≡ ok gh
unfolding to_string kind_prefix equal has_prefix
parse_in-spelled_example =
    parse_in-spelled machine (codes "/w") (codes "github:cli/cli#gh@2.1.0") gh parses refl refl refl

parse_in-IsValid_example : IsValid machine gh
parse_in-IsValid_example =
    parse_in-IsValid machine (codes "/w") (codes "github:cli/cli#gh@2.1.0") gh parses
