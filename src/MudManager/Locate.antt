-- ===== src/MudManager/Locate.antt =====
-- `executeNewDhcpAction`: where the MUD file and its signature are fetched from and stored.
use mathlib.Core.List.{append_assoc}
use osmud.Prelude.{ℕ, false, some, [], ◌∷◌, ◌++◌, ◌≡◌, ◌≢◌, refl, sym, ap, ◌∙◌, arith}
use osmud.CString.{Bytes, has}
use osmud.Utils.Laws.{replace_extension-append}
use osmud.Utils.{replace_extension}
use osmud.DhcpEvent.{
  DhcpEvent, create_storage_location, create_sig_url_from_mud_url, mud_file_signature_extension,
}
use osmud.DhcpEvent.Locations.{create_storage_location_lem}
use osmud.MudManager.Access.{Globals}
use osmud.MudManager.{locate, text_of}

-- a URL with the path, the name and the extension of its file
abbrev pub url_of : Bytes → Bytes → Bytes → Bytes
url_of path stem extension = path ++ (b'/' ∷ (stem ++ (b'.' ∷ extension)))

has-append : (c : ℕ) (a b : Bytes) → has c a ≡ false → has c b ≡ false → has c (a ++ b) ≡ false
unfolding has
has-append c [] b ha hb = hb
has-append c (x ∷ xs) b ha hb = ground (arith, has-append c xs b)

append-ne : (a : Bytes) (c : ℕ) (b : Bytes) → a ++ (c ∷ b) ≢ []
append-ne [] c b = λ e. cc
append-ne (x ∷ xs) c b = λ e. cc

rebracket :
    (path stem extension : Bytes)
    → url_of path stem extension ≡ (path ++ (b'/' ∷ stem)) ++ (b'.' ∷ extension)
rebracket path stem extension = sym (append_assoc path (b'/' ∷ stem) (b'.' ∷ extension))

sig_url :
    (path stem extension : Bytes)
    → has b'.' extension ≡ false
    → text_of (create_sig_url_from_mud_url (some (url_of path stem extension)))
      ≡ some (url_of path stem mud_file_signature_extension)
unfolding create_sig_url_from_mud_url
sig_url path stem extension h =
    ap (λ url. text_of (replace_extension (some url) (some mud_file_signature_extension)))
      (rebracket path stem extension)
    ∙ ap text_of
        (replace_extension-append (path ++ (b'/' ∷ stem)) extension mud_file_signature_extension h)
    ∙ ap some (sym (rebracket path stem mud_file_signature_extension))

storage :
    (directory path stem extension : Bytes)
    → has b'/' stem ≡ false
    → has b'/' extension ≡ false
    → (text_of (create_storage_location directory (some (url_of path stem extension))).0
        ≡ some (directory ++ (b'/' ∷ (stem ++ (b'.' ∷ extension)))))
      × ((create_storage_location directory (some (url_of path stem extension))).1
          ≡ some (url_of path stem extension))
unfolding has
storage directory path stem extension hs he =
    let (h, e, text, _, _) =
      create_storage_location_lem directory path (stem ++ (b'.' ∷ extension))
        (append-ne stem b'.' extension) (has-append b'/' stem (b'.' ∷ extension) hs he) in
    (rw e (ap some text), rw e refl)

-- For a URL whose file has an extension, the signature is beside the MUD file under the same name
-- with the extension "p7s", and both are stored under their names in the data directory.
pub locate-url_of :
    (g : Globals) (event : DhcpEvent) (path stem extension : Bytes)
    → has b'/' stem ≡ false
    → has b'/' extension ≡ false
    → has b'.' extension ≡ false
    → event.mud_file_url ≡ some (url_of path stem extension)
    → locate g event ≡ record event {
      mud_file_url = some (url_of path stem extension);
      mud_sig_url = some (url_of path stem mud_file_signature_extension);
      mud_file_storage_location =
          some (g.mud_file_data_directory ++ (b'/' ∷ (stem ++ (b'.' ∷ extension))));
      mud_sig_file_storage_location =
          some
            (g.mud_file_data_directory ++ (b'/' ∷ (stem ++ (b'.' ∷ mud_file_signature_extension))));
    }
unfolding locate has
locate-url_of g event path stem extension hs he dot url =
    let directory = g.mud_file_data_directory in
    let (file, left) = storage directory path stem extension hs he in
    let (sig_file, sig_left) = storage directory path stem mud_file_signature_extension hs refl in
    rw (url, sig_url path stem extension dot) (rw (file, left, sig_file, sig_left) refl)
