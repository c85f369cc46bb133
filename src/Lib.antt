-- ===== src/Lib.antt =====
-- The core of the Kin application server: the Flask application below kinappserver/, whose models
-- keep their state in a PostgreSQL database. A user does tasks, is paid kin for them, and spends the
-- kin on goods that the server holds; a phone number ties the user's devices together.
--
-- Common holds what the modules share: tests on numbers, lists, signed integers, and a table of the
-- database as the list of its rows with the queries that the source makes (Common/Table). Action is
-- the shape of a call: from a state to a result or an exception, with the state that the call left,
-- since what was committed before an exception stays committed. An exception that carries a message
-- is one of the two classes of kinappserver/utils.py; every other one is `uncaught`.
--
-- Shop models kinappserver/models/good.py, order.py, offer.py and transaction.py on one state. A
-- booking (`create_order`) allocates a good to a new order; a redemption (`process_order`) fetches a
-- payment from the blockchain (kinappserver/stellar.py), compares it with the order, finalizes the
-- good and deletes the order; a sweep (`release_unclaimed_goods`) frees the goods of orders that have
-- expired. Shop/Listing is the list of offers that a user is shown (`get_offers_for_user`), with the
-- loop that removes from the list it goes over. Shop/Market is the step relation of the three, each
-- of them a whole call. The answers of the blockchain's SDK are a function of
-- the attempt's number, and `fetch_tx` makes as many attempts as the configuration says, as the
-- source's counted loop does, so it needs no fuel.
--
-- Auth models kinappserver/models/push_auth_token.py, the token that proves a push channel, and the
-- cron scan over the tokens. Account holds the row of the user's application data, and
-- Account/Captcha the captcha flag of kinappserver/models/user.py with `check_captcha` of
-- kinappserver/views_public.py and `passed_captcha` of kinappserver/utils.py.
--
-- Users models the users of kinappserver/models/user.py. Users/Phones has the operations on phone
-- numbers: verifying one deactivates the earlier users of the number and hands their history over,
-- and restoring from a backup activates the original user again. Users/Backup keeps the hints of a
-- number (kinappserver/models/backup.py). Users/Access has the blacklist and the tests by which the
-- endpoints let a user in (`authorize` and its kin in kinappserver/views_public.py), and
-- Users/Registration the endpoints that verify a number and create an account, the latter in two steps
-- between which other requests come. Users/Engagement chooses the users that an engagement push is
-- sent to.
--
-- Tasks models kinappserver/models/task2.py: Tasks/Catalog adds and deletes tasks, Tasks/Next chooses
-- the next task of a category, Tasks/Results stores the results of a task, with the midnight of
-- kinappserver/utils.py until which the next are premature, and Tasks/Reward has the quiz, the tip and
-- the amount of the endpoint that takes the results of a task in kinappserver/views_public.py.
-- Tasks/Payment is that endpoint whole, with the payment lock, the request to the payment service and
-- the service's callback, as events that follow on each other in any order, each a whole call: what
-- another request does while a submission runs, between its look for an earlier payment and its lock,
-- is not modelled; Tasks/Serving plants the
-- memo that the payment later takes, and caches what it serves. Tasks/Truex is the callback of an
-- advertising service, which is to pay a task too.
--
-- Categories models kinappserver/models/category.py, Versions the forced updates and the flags of a
-- client's configuration (kinappserver/models/system_config.py), Transfers the transfers between users
-- and the history of a user's transactions (kinappserver/models/p2p_transaction.py and
-- `get_transactions_api`), and Blackhawk the cron job that buys gift cards and makes goods of them
-- (kinappserver/blackhawk.py and the three models behind it).
--
-- Ids, addresses, UUIDs, hashes and encrypted phone numbers are opaque numbers; times are
-- microseconds since the epoch, given as an argument to each call that reads the clock. Python's
-- integers are unbounded, so no arithmetic wraps around. The price of a task, the rewards of its
-- quizzes and the values of its tips are natural numbers, which the source does not test. All loops run over lists or counted ranges
-- and are structural recursion; no definition has fuel that could run out before the source's loop.
--
-- Not modelled: the unpacking of HTTP requests, metrics, push payloads, mail, app discovery, the old
-- table of tasks and its migration, and the administrator's endpoints. The two caches that change
-- answers are modelled, those that only save time are not. The cipher, the comparison of client
-- versions, the country of an address, Google's captcha service, the blockchain's SDK, Blackhawk's
-- interface, Firebase and the tests of urls are arguments of the definitions that use them. Redis
-- locks time out by events of their own; whether releasing one through another lock object frees it
-- is an argument.
pub mod Common
pub mod Action
pub mod Shop
pub mod Auth
pub mod Account
pub mod Users
pub mod Transfers
pub mod Tasks
pub mod Blackhawk
pub mod Categories
pub mod Versions
