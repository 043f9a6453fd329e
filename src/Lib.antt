-- ===== src/Lib.antt =====
-- VaultRecon AI: reconciliation of payments, processor records, settlements, batches and bank
-- entries, and the controlled investigation of what does not reconcile.
--
-- The program loads normalised records into a key-value store (ingestion/loader.py through
-- recon/storage.py), each with index entries that name its key. recon/matcher.py reads them back,
-- matches orders and settlement batches by the rules of recon/rules.py and the fee policies, and
-- reports matches and exceptions (recon/exceptions.py). ai/agent.py investigates an exception: it
-- gathers evidence with the tools of ai/tools.py, asks a language model, and lets ai/guardrails.py
-- decide whether the model's proposal may resolve it.
--
-- Files and the code that they model:
--   Text, Value, Dict, Result, Float, Decimal   Python's values, as far as the program uses them
--   Schemas, Schemas/Keys    ingestion/schemas.py: records, `to_key` and the index keys
--   Fees                     FeePolicy of ingestion/schemas.py, FeePolicyRegistry of recon/rules.py
--   Rules, Rules/Similarity  ReconciliationRules and the description similarity of recon/rules.py
--   Vault, Vault/Records, Vault/Window   recon/storage.py: put, get, delete, scans, records
--   Exceptions               recon/exceptions.py, and the findings of recon/matcher.py
--   Matcher/Index            the maps that reconcile_all builds from the index entries
--   Matcher/Order and below  reconcile_order: Targets (step 2), Checks (steps 1, 3 and 5), Passes
--                            (step 4)
--   Matcher/Batch, Matcher/Run   reconcile_batch, and reconcile_all with its loops
--   Matcher/Ledger           an abstract view of the order loop, a step relation on a ledger
--   Matcher/Answers and below   what each loop of reconcile_all appends to its report
--   Ingestion                NormalizedDataset of adapters/base.py, and load_dataset
--   Ingestion/Csv and below  ingestion/adapters/generic_csv.py: Cells, then Convert, a row as a
--                            record
--   Ingestion/Canonical and below   datasets/run.py: parse_timestamp (Cells), the rows (Records),
--                            and load_default_csv_dataset
--   Similarity               recon/similarity.py
--   Ai/Evidence, Ai/Guardrails, Ai/Toolkit, Ai/Agent   the files of ai/ of those names
--   Ai/Prompt                ai/prompts.py, and step 2 of investigate
--   Ai/Provider and below    ai/llm.py: the offline provider with its patterns and replies, and the
--                            remote ones
--   Pipeline                 stress_test/runner.py: load, reconcile, investigate; Default: the
--                            same over the canonical files, run_default_pipeline of datasets/run.py
--   Evaluation               evaluation/metrics.py
--   StressTest               stress_test/evaluator.py, its actual_outcomes in Outcomes; Scenarios:
--                            scenarios.py, ground_truth.py
-- The other files hold proofs, named for what they prove. Sample holds the data of the tests.
--
-- State is passed explicitly: the store is an association list in the order of the keys, the
-- engine's consumed ids are an argument and a result of reconcile_order, and an exception that is
-- mutated is returned. A Python exception that nothing catches is `raised`. What a call reads from
-- the clock or from uuid is an argument (`Moment`, `Times`).
--
-- Parameters: floats are a type with the program's operations (`Float`; Float/Micro has an
-- instance that runs); Decimal stands for Python's decimals, finite or not, with InvalidOperation
-- as `none`; json and pydantic are `Codec`; difflib's ratio, the language model and
-- json.loads of its answer are fields of the engine and of the controller; json.dumps is an
-- argument of the offline provider, requests.post of the remote ones; csv is `CsvLibrary`, csv
-- with datetime and the clock `CanonicalLibrary`; numpy's percentile is an argument. Texts that
-- Python makes of nested values in the prompt are `PromptTexts`. The store accepts or refuses each
-- write (`accepts`); below it the C++ engine of MiniVaultDB/ is seen as the ordered map that its C
-- API promises.
--
-- Fuel: digits are printed with the number itself as fuel, which is more than it has digits; the
-- amounts of a text are found with its length as fuel, since every step drops a character.
--
-- Not modelled: the rounding of decimal sums and products to 28 digits; the checks of types that
-- the controller makes of an answer's fields, which are one case (`ill_typed`) of what json.loads
-- gives; the overflow of an amount of 309 digits in the facts; a store whose refusals change with
-- time. Texts of reasons are kept as templates with their values; `upper`, `isalnum` and digits are
-- those of ASCII. Left out are the constants of the HTTP payloads, the reports in Markdown, the
-- generators of random test data, the fixed evaluation cases of ai/eval_dataset.py, and the other
-- command line programs, which run the phases of Pipeline and print.
pub mod Prelude
pub mod Text
pub mod Decimal
pub mod Float
pub mod Dict
pub mod Value
pub mod Schemas
pub mod Result
pub mod Vault
pub mod Exceptions
pub mod Fees
pub mod Rules
pub mod Similarity
pub mod Pipeline
pub mod Evaluation
pub mod StressTest
pub mod Matcher
pub mod Ai
pub mod Ingestion
pub mod Sample
