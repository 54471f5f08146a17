-- ===== src/Tests/Selectors.antt =====
-- Runs of crates/orbit-graph-extract/src/selector.rs.
use orbit_graph.Common.{◌≡◌, refl, ok}
use orbit_graph.Common.Text.{Text, codes, trim, is_whitespace, rsplit_once, split_once}
use orbit_graph.Selector.{Selector, dir, symbol, path, to_string}
use orbit_graph.Selector.Path.{normalize_path_text}
use orbit_graph.Selector.Path.Idempotent.{normalize_path_text-idempotent}
use orbit_graph.Selector.Parse.{from_str}
use orbit_graph.Selector.Parse.RoundTrip.{from_str-to_string}

abbrev messy : Text
messy = codes " symbol:./src//x/..\\lib.rs#a::b : function"

abbrev tidy : Selector
tidy = symbol (codes "src/lib.rs") (codes "a::b") (codes "function")

parse_messy : from_str messy ≡ ok tidy
unfolding from_str trim is_whitespace normalize_path_text rsplit_once split_once
parse_messy = refl

from_str-to_string_example : from_str (to_string tidy) ≡ ok tidy
unfolding path trim is_whitespace
from_str-to_string_example = from_str-to_string messy tidy parse_messy refl

climbing : normalize_path_text (codes "a/../../b/./c//") ≡ ok (codes "../b/c")
unfolding normalize_path_text is_whitespace
climbing = refl

normalize_path_text-idempotent_example : normalize_path_text (codes "../b/c") ≡ ok (codes "../b/c")
unfolding trim is_whitespace
normalize_path_text-idempotent_example =
    normalize_path_text-idempotent (codes "a/../../b/./c//") (codes "../b/c") climbing refl

-- A path that ends in white space is printed as a text that is read as another path.
untrimmed : from_str (codes "dir:a/ /") ≡ ok (dir (codes "a/ "))
unfolding from_str trim is_whitespace normalize_path_text
untrimmed = refl

untrimmed_again : from_str (to_string (dir (codes "a/ "))) ≡ ok (dir (codes "a"))
unfolding from_str to_string trim is_whitespace normalize_path_text
untrimmed_again = refl
