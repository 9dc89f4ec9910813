-- ===== src/GitCheckouts/Addresses.antt =====
-- git_checkouts.py, the addresses of repositories: read in a configuration, shown without
-- identifiers, shortened.
use mathlib.Core.List.{reverse}
use sdk_local_manager.Prelude.{
  ℕ, Bool, not, ◌&&◌, ◌||◌, Option, none, some, List, [], ◌∷◌, ◌++◌, if◌then◌else◌, ◌==◌, Eq_ℕ,
  Eq_List, leb, length, take, ◌-◌, contains,
}
use sdk_local_manager.Prelude.Dict
use sdk_local_manager.Prelude.Dict.{Dict}
use sdk_local_manager.Prelude.Text.{Text, txt, is_space, strip, lower, has_suffix}
use sdk_local_manager.Prelude.Lines.{split_lines}
use sdk_local_manager.Prelude.Regex.{
  Re, Place, one, seq, many, many_lazy, group, at_start, at_end, lit, many1, maybe, digit, space,
  any_char, is_word, match_re, group_of,
}
use sdk_local_manager.GitCheckouts.{Disk, join}

abbrev is_letter : ℕ → Bool
is_letter c = (leb b'A' c && leb c b'Z') || (leb b'a' c && leb c b'z')

-- Every character but these.
abbrev none_of : Text → Re
none_of excluded = one (λ c. not (contains excluded c))

unfoldable pub config_section_re : Re
config_section_re = seq at_start (
    seq (many space) (
      seq (lit (txt "[")) (
        seq (many space) (
          seq (group 1 (many1 (one (λ c. not (c == b']' || c == b'"' || is_space c))))) (
            seq
              (maybe (
                seq (many1 space) (
                  seq (lit (txt "\""))
                    (seq (group 2 (many (none_of (txt "\"")))) (lit (txt "\""))))))
              (seq (many space) (lit (txt "]"))))))))

unfoldable pub config_value_re : Re
config_value_re = seq at_start (
    seq (many space) (
      seq (group 1 (seq (one is_letter) (many (one (λ c. is_word c || c == b'-'))))) (
        seq (many space) (
          seq (lit (txt "="))
            (seq (many space) (seq (group 2 (many_lazy any_char)) (seq (many space) at_end)))))))

-- The section that the lines are in, when it is that of a remote, and the addresses so far.
pub record Config : Type 0 where
  pub section : Option Text
  pub urls : Dict Text Text

abbrev or_text : Option Text → Text
or_text none = []
or_text (some t) = t

abbrev lstrip_char : ℕ → Text → Text
lstrip_char c [] = []
lstrip_char c (d ∷ t) = let rest = lstrip_char c t in if d == c then rest else d ∷ t

abbrev rstrip_char : ℕ → Text → Text
rstrip_char c t = reverse (lstrip_char c (reverse t))

abbrev strip_quotes : Text → Text
strip_quotes t = rstrip_char b'"' (lstrip_char b'"' t)

-- `urls.setdefault(section, url)`
abbrev set_url : Text → Text → Dict Text Text → Dict Text Text
set_url section url urls = if Dict.has section urls then urls else Dict.put section url urls

abbrev config_value : Option Place → Config → Config
config_value none config = config
config_value (some m) config = elim config.section [
  | none ↦ config
  | some section ↦
      if lower (or_text (group_of 1 m)) == txt "url"
      then record config {
        urls = set_url section (strip_quotes (strip (or_text (group_of 2 m)))) config.urls;
      }
      else config
]

abbrev config_header : Option Place → Text → Config → Config
config_header (some m) line config = record config {
  section = if lower (or_text (group_of 1 m)) == txt "remote" then group_of 2 m else none;
}
config_header none line config = config_value (match_re config_value_re line) config

unfoldable pub config_lines : List Text → Config → Config
config_lines [] config = config
config_lines (line ∷ lines) config =
    config_lines lines (config_header (match_re config_section_re line) line config)

abbrev first_url : Dict Text Text → Text
first_url [] = []
first_url ((section, url) ∷ urls) = url

-- `urls.get(preferred) or next(iter(urls.values()), "")`
abbrev preferred_url : Option Text → Dict Text Text → Text
preferred_url none urls = first_url urls
preferred_url (some []) urls = first_url urls
preferred_url (some (c ∷ t)) urls = c ∷ t

abbrev urls_in : Option Text → Dict Text Text
urls_in none = []
urls_in (some text) = (config_lines (split_lines text) (record { section = none; urls = [] })).urls

module _ (disk : Disk) where
  unfoldable pub remote_url : Text → Text → Text
  remote_url common preferred =
      let urls = urls_in (disk.read_text (join common (txt "config"))) in
      preferred_url (Dict.get preferred urls) urls

-- `^(https?://)[^/@]*@`
unfoldable pub credentials_re : Re
credentials_re = seq at_start (
    seq (group 1 (seq (lit (txt "http")) (seq (maybe (lit (txt "s"))) (lit (txt "://")))))
      (seq (many (none_of (txt "/@"))) (lit (txt "@"))))

abbrev without_match : Text → Option Place → Text
without_match url none = url
without_match url (some m) = or_text (group_of 1 m) ++ m.rest

unfoldable pub without_credentials : Text → Text
without_credentials url = without_match url (match_re credentials_re url)

-- The address of a server by its scheme, and the short form `user@server:path`.
unfoldable pub scheme_re : Re
scheme_re = seq at_start (
    seq (one is_letter) (
      seq (many (one (λ c. is_word c || contains (txt "+.-") c))) (
        seq (lit (txt "://")) (
          seq (maybe (seq (many (none_of (txt "@/"))) (lit (txt "@")))) (
            seq (group 1 (many1 (none_of (txt "/:")))) (
              seq (maybe (seq (lit (txt ":")) (many1 digit)))
                (seq (lit (txt "/")) (seq (group 2 (many1 any_char)) at_end))))))))

unfoldable pub short_re : Re
short_re = seq at_start (
    seq (maybe (seq (many1 (none_of (txt "@/"))) (lit (txt "@")))) (
      seq (group 1 (many1 (none_of (txt ":/"))))
        (seq (lit (txt ":")) (seq (group 2 (many1 any_char)) at_end))))

abbrev remove_git : Text → Text
remove_git t = if has_suffix (txt ".git") t then take (length t - 4) t else t

abbrev label_of : Place → Text
label_of m = or_text (group_of 1 m) ++ b'/' ∷ remove_git (rstrip_char b'/' (or_text (group_of 2 m)))

abbrev label_or : Text → Option Place → Option Place → Text
label_or url (some m) other = label_of m
label_or url none (some m) = label_of m
label_or url none none = url

unfoldable pub remote_label : Text → Text
remote_label address =
    let url = strip (without_credentials address) in
    label_or url (match_re scheme_re url) (match_re short_re url)
