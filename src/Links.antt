-- ===== src/Links.antt =====
-- `parse_community_id`, and the address that `get_metadata` asks, in tokenir/src/constans.rs.
pub mod Community
use tokenir.Prelude.{
  ℕ, Bool, true, false, ◌||◌, Option, none, some, List, [], ◌∷◌, ◌++◌, nat_beq, if◌then◌else◌,
}
use tokenir.Prelude.Map.{is_some}
use tokenir.Prelude.Text.{Text, codes, strip_prefix, trim_end}

-- `url.contains(pattern)`
unfoldable pub contains : Text → Text → Bool
contains pattern [] = is_some (strip_prefix pattern [])
contains pattern (c ∷ s) = is_some (strip_prefix pattern (c ∷ s)) || contains pattern s

abbrev pub is_slash : ℕ → Bool
is_slash c = nat_beq c b'/'

-- The last piece of `split('/')`: what stands behind the last slash.
unfoldable pub last_piece : Text → Text → Text
last_piece seen [] = seen
last_piece seen (c ∷ s) = last_piece (if is_slash c then [] else seen ++ c ∷ []) s

unfoldable pub parse_community_id : Text → Option Text
unfolding last_piece contains
parse_community_id url =
    if contains (codes "/i/communities/") url
    then some (last_piece [] (trim_end is_slash url))
    else none

abbrev through : Text → Text → Text
through ipfs_url path = trim_end is_slash ipfs_url ++ b'/' ∷ path

abbrev or_https : Text → Text → Option Text → Text
or_https ipfs_url url (some path) = through ipfs_url path
or_https ipfs_url url none = url

abbrev or_ipfs : Text → Text → Option Text → Text
or_ipfs ipfs_url url (some path) = through ipfs_url path
or_ipfs ipfs_url url none = or_https ipfs_url url (strip_prefix (codes "https://ipfs.io/ipfs/") url)

-- The first step of `get_metadata`.
unfoldable pub final_url : Text → Text → Text
final_url ipfs_url url = or_ipfs ipfs_url url (strip_prefix (codes "ipfs://") url)
