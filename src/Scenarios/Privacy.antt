-- ===== src/Scenarios/Privacy.antt =====
-- The mask of a CPF.
use open_data_gov.Privacy.Maskers.{cpf_masker}
use open_data_gov.Privacy.Masking.{mask, stars, text_take, text_last, text_drop}
use open_data_gov.Privacy.Masked.{IsMaskOf, mask-IsMaskOf}
use open_data_gov.Prelude.{text_length, f_string}

mask-IsMaskOf_example : IsMaskOf cpf_masker "12345678901" "*******8901"
unfolding mask stars text_take text_last text_drop text_length f_string
mask-IsMaskOf_example = mask-IsMaskOf cpf_masker "12345678901"
