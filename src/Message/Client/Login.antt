-- ===== src/Message/Client/Login.antt =====
-- The login message, read back field by field.
use mathlib.Core.List.{append_assoc}
use system_k_dev.Base.{
  ℕ, ◌-◌, ◌≤◌, ◌≡◌, refl, ◌∙◌, ap, Bool, true, some, List, [], ◌∷◌, ◌++◌, length, replicate,
  if◌then◌else◌, arith, length-append, length-replicate,
}
use system_k_dev.Base.Int.{pos}
use system_k_dev.Packet.{
  PacketBase, TextOps, ok, Reader, pure, ◌>>=◌, packet, read_char, read_string, c_str,
}
use system_k_dev.Packet.Safe.{bind-ok}
use system_k_dev.Packet.Field.{
  extended, pad_right, pad_left, length-pad_right, write_char-extended, write_string-extended,
  write_long-extended, read_string-field, read_char-field,
}
use system_k_dev.Message.Client.{login, save}

-- The fields of a login that the server reads, before the reserved one.
pub record LoginFields : Type 0 where
  pub type : ℕ
  pub username : List ℕ
  pub password : List ℕ
  pub flag : ℕ

module _ {F : Type 0} (t : TextOps F) where
  unfoldable pub read_login : Reader LoginFields
  read_login = do
    type ← read_char
    username ← read_string t 40 true
    password ← read_string t 40 true
    flag ← read_char
    pure (record { type = type; username = username; password = password; flag = flag })

  -- A string without a NUL that fits in `n` characters and is trimmed back to itself.
  pub record FitsField (n : ℕ) (s : List ℕ) : Type 0 where
    pub no_nul : c_str s ≡ s
    pub fits : length s ≤ n
    pub trims : (k : ℕ) → t.trim_right (s ++ replicate k 32) ≡ s

  module _ (u w : List ℕ) (b : Bool) (fu : FitsField 40 u) (fw : FitsField 40 w)
      (reserved : length (t.decimal (pos 0)) ≤ 9) where
    flag : ℕ
    flag = if b then 84 else 70

    abbrev name : List ℕ
    name = pad_right u 40

    abbrev secret : List ℕ
    secret = pad_right w 40

    abbrev zero_field : List ℕ
    zero_field = pad_left (t.decimal (pos 0)) 9

    -- The packet that is saved.
    abbrev saved : PacketBase
    saved =
        extended
          (extended (extended (extended (extended (packet []) (76 ∷ [])) name) secret) (flag ∷ []))
          zero_field

    save-saved : save t (login u w b) (packet []) ≡ some saved
    unfolding save flag
    save-saved =
        rw
          (
            write_char-extended 76 (packet []),
            write_string-extended t u 40 (extended (packet []) (76 ∷ [])) fu.no_nul fu.fits,
            write_string-extended t w 40 (extended (extended (packet []) (76 ∷ [])) name) fw.no_nul
                fw.fits,
            write_char-extended flag
                (extended (extended (extended (packet []) (76 ∷ [])) name) secret),
          )
          (write_long-extended t (pos 0) 9 _ reserved)

    before_flag : saved.buffer ≡ ((76 ∷ name) ++ secret) ++ (flag ∷ zero_field)
    before_flag = append_assoc ((76 ∷ name) ++ secret) (flag ∷ []) zero_field

    in_order : saved.buffer ≡ 76 ∷ (name ++ (secret ++ (flag ∷ zero_field)))
    in_order = before_flag ∙ append_assoc (76 ∷ name) secret (flag ∷ zero_field)

    at : ℕ → PacketBase
    at n = record { buffer = saved.buffer; position = n }

    read-saved :
        read_login (packet saved.buffer)
        ≡ ok (record { type = 76; username = u; password = w; flag = flag }) (at 82)
    unfolding read_login at
    read-saved =
        let size_name = length-pad_right u 40 fu.fits in
        let size_secret = length-pad_right w 40 fw.fits in
        bind-ok read_char _ (at 0) (at 1) 76 (read_char-field (at 0) [] _ 76 in_order refl)
        ∙ bind-ok (read_string t 40 true) _ (at 1) (at 41) u (
            read_string-field t (at 1) (76 ∷ []) name _ 40 in_order refl size_name
            ∙ ap (λ s. ok s (at 41)) (fu.trims _))
        ∙ bind-ok (read_string t 40 true) _ (at 41) (at 81) w (
            read_string-field t (at 41) (76 ∷ name) secret _ 40 in_order (omega (arith, size_name))
              size_secret
            ∙ ap (λ s. ok s (at 81)) (fw.trims _))
        ∙ bind-ok read_char _ (at 81) (at 82) flag (
            read_char-field (at 81) ((76 ∷ name) ++ secret) zero_field flag before_flag
              (omega (arith, size_name, size_secret, length-append (76 ∷ name) secret)))

    -- A login whose user name and password fit in their fields, have no NUL and are trimmed back
    -- to themselves once padded with spaces, is saved into an empty packet as 91 characters, where
    -- the decimal 0 takes at most nine; read field by field, they give the type L, the user name,
    -- the password and T or F for the request to be unsubscribed.
    pub read_login-save :
        (q : PacketBase) × (save t (login u w b) (packet []) ≡ some q)
        × (length q.buffer ≡ 91)
        × (read_login (packet q.buffer)
            ≡ ok
                (record { type = 76; username = u; password = w; flag = if b then 84 else 70 })
                (record { buffer = q.buffer; position = 82 }))
    unfolding flag at
    read_login-save = (saved, save-saved, size, read-saved)
      where
        size : length saved.buffer ≡ 91
        size =
            ap (λ (x : List ℕ). length x) in_order
            ∙ omega (
              arith,
              length-pad_right u 40 fu.fits,
              length-pad_right w 40 fw.fits,
              length-append name (secret ++ (flag ∷ zero_field)),
              length-append secret (flag ∷ zero_field),
              length-append (replicate (9 - length (t.decimal (pos 0))) 32) (t.decimal (pos 0)),
              length-replicate {A = ℕ} (9 - length (t.decimal (pos 0))) 32,
            )
