-- ===== src/Echo/Standard/Tests.antt =====
-- Two responses to the client over a net.Conn.
use netring.Prelude.{ℕ, ◌≡◌, refl, true, false, List, [], ◌∷◌, ◌++◌}
use netring.TestProtocol.{parse_response, take, drop, response, le_bytes, from_le}
use netring.Echo.{Receiver, receive}
use netring.Echo.Views.{concat}
use netring.Echo.Standard.{read_responses, succeeds}
use netring.Echo.Standard.Agreement.{accepts, succeeds-accepts}

abbrev waiting : Receiver
waiting = record { sequences = (0, 1000) ∷ (1, 1000) ∷ []; deleted = [] }

abbrev both : List ℕ
both = response 1001 0 ++ response 1002 1

abbrev cut : List (List ℕ)
cut = take 30 both ∷ drop 30 both ∷ []

-- With every response there the client is content; with one missing or early it is not, unless the
-- wrapped nil is nil.
verdicts :
    (succeeds false (read_responses 2 both waiting.sequences) ≡ true)
    × (succeeds false (read_responses 2 (response 1001 0) waiting.sequences) ≡ false)
    × (succeeds false (read_responses 1 (response 9 0) waiting.sequences) ≡ false)
    × (succeeds true (read_responses 1 (response 9 0) waiting.sequences) ≡ true)
unfolding read_responses succeeds response le_bytes from_le parse_response
verdicts = (refl, refl, refl, refl)

succeeds-accepts_example :
    succeeds false (read_responses 2 (concat cut) waiting.sequences)
    ≡ accepts (receive cut (record { left = 2; carry = []; receiver = waiting }))
succeeds-accepts_example = succeeds-accepts 2 cut waiting
